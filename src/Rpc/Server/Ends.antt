-- ===== src/Rpc/Server/Ends.antt =====
-- The three ends that a server's side of a handshake can come to.
use smoljudge.Prelude.{
  ◌≡◌, ◌≢◌, refl, sym, subst, true, false, List, [], bytes_eq, some, Bool-cases, All, inl, inr,
}
use smoljudge.Prelude.Text.{Text}
use smoljudge.Prelude.Int.{ℤ}
use smoljudge.Prelude.Dict.{Dict}
use smoljudge.Prelude.Outcome.{ok}
use smoljudge.Prelude.Run.{Run, done}
use smoljudge.Wire.Types.{Bytes}
use smoljudge.Messages.{ClientHello, read_client_hello, server_hello_bytes, seal_server_hello}
use smoljudge.Socket.{Peer, writes, calls, write, stop_peer}
use smoljudge.Rpc.Session.{Endpoint, User, Method}
use smoljudge.Rpc.Server.{
  Server, new_server, Checked, accepted, refused, match_client_methods, index_advertised,
  hello_with, report_handshake_error, reply_hello, set_ids, match_methods, greet,
  on_incoming_handshake, magic_eq, upper_magic,
}
use smoljudge.Rpc.Server.Clients.{Provided, match_client_methods_sound}
use smoljudge.Rpc.Server.Handshake.{Answers, match_server_methods_sound}

-- A hello with this text and these ids has been written.
abbrev pub answered : {O : Type 0} → Text → List ℤ → Peer (Endpoint O) → Peer (Endpoint O)
answered text ids p = record p {
  socket = calls (writes (server_hello_bytes (seal_server_hello (hello_with text ids)))) p.socket;
}

-- The ends of a handshake for the hello of a client: the connection is stopped without an answer; an
-- error is reported, in a text that is not empty, and the connection is stopped; or the ids of the
-- requested methods are sent, and the ids of the client's methods are known.
pub data Ending {O : Type 0} (u : User (Endpoint O)) (client_methods : List Method)
    (hello : ClientHello) (p : Peer (Endpoint O)) : Run (Peer (Endpoint O)) → Type 0 where
  ignored :
      magic_eq hello.magic upper_magic ≡ false
      → Ending u client_methods hello p (done (stop_peer p))
  reported :
      (text : Text) (ids : Dict Text ℤ)
      → text ≢ []
      → Ending u client_methods hello p (done (stop_peer (answered text [] (set_ids ids p))))
  established :
      (ids : Dict Text ℤ) (answers : List ℤ)
      → Answers u.methods hello.requested_server_methods answers
      → All (Provided hello.advertised_client_methods ids) client_methods
      → Ending u client_methods hello p (done (answered [] answers (set_ids ids p)))

pub report_lem :
    {O : Type 0} (text : Text) (p : Peer (Endpoint O))
    → p.socket.is_connected ≡ true
    → report_handshake_error text p ≡ done (stop_peer (answered text [] p))
unfolding report_handshake_error write
report_lem text p up = rw up

module _ {O : Type 0} (name client_name : Text) (client_methods : List Method)
    (u : User (Endpoint O)) (hello : ClientHello) (p : Peer (Endpoint O))
    (up : p.socket.is_connected ≡ true) where
  abbrev End : Run (Peer (Endpoint O)) → Type 0
  End = Ending u client_methods hello p

  abbrev server : Server O
  server = new_server name client_name client_methods u

  report-End :
      (text : Text) (ids : Dict Text ℤ)
      → text ≢ []
      → End (report_handshake_error text (set_ids ids p))
  report-End text ids said = rw (report_lem text (set_ids ids p) up) (reported text ids said)

  reply-End :
      (ids : Dict Text ℤ) (r : Checked (List ℤ))
      → ((all : List ℤ) → r ≡ accepted all → Answers u.methods hello.requested_server_methods all)
      → ((text : Text) → r ≡ refused text → text ≢ [])
      → All (Provided hello.advertised_client_methods ids) client_methods
      → End (reply_hello server (some r) (set_ids ids p))
  unfolding reply_hello write
  reply-End ids (accepted all) answers said provided =
      rw up (established ids all (answers all refl) provided)
  reply-End ids (refused text) answers said provided = report-End text ids (said text refl)

  match-End :
      (r : Dict Text ℤ × Checked (Unit {0}))
      → (r.1 ≡ accepted tt → All (Provided hello.advertised_client_methods r.0) client_methods)
      → ((text : Text) → r.1 ≡ refused text → text ≢ [])
      → End (match_methods server hello r p)
  unfolding match_methods
  match-End (ids, refused text) provided said = report-End text ids (said text refl)
  match-End (ids, accepted one) provided said =
      let (r, e, answers, told) =
        match_server_methods_sound name client_name client_methods u
          hello.requested_server_methods in
      rw e (reply-End ids r answers told (provided refl))

  greet-End : p.owner.session.ids_of_methods ≡ [] → End (greet server hello p)
  unfolding greet new_server
  greet-End none_yet = elim (Bool-cases (magic_eq hello.magic upper_magic)) [
    | inr other ↦ rw other (ignored other)
    | inl ours ↦
        elim (Bool-cases (bytes_eq hello.requested_server_protocol_name (server).protocol_name)) [
          | inr other ↦ rw (ours, other) (report-End _ p.owner.session.ids_of_methods (λ e. cc))
          | inl same ↦
              elim (Bool-cases
                (bytes_eq hello.advertised_client_protocol_name (server).client_protocol_name)) [
                  | inr other ↦
                      rw (ours, same, other) (report-End _ p.owner.session.ids_of_methods (λ e. cc))
                  | inl too ↦
                      let (provided, said) =
                        match_client_methods_sound hello.advertised_client_methods client_methods in
                      rw (ours, same, too)
                        (subst
                          (λ ids. End (
                            match_methods server hello
                              (match_client_methods client_methods
                                (index_advertised hello.advertised_client_methods 0 []) ids)
                              p))
                          (sym none_yet) (match-End _ provided said))
                ]
        ]
  ]

-- On a connected socket, for a client that no ids are known of, whatever hello can be read comes
-- to one of the three ends: none of them throws, reads outside the tables, or leaves the client
-- without an answer or a stopped socket.
pub on_incoming_handshake-Ending :
    {O : Type 0} (name client_name : Text) (client_methods : List Method) (u : User (Endpoint O))
    (span : Bytes) (hello : ClientHello) (p : Peer (Endpoint O))
    → read_client_hello span ≡ ok hello
    → p.socket.is_connected ≡ true
    → p.owner.session.ids_of_methods ≡ []
    → Ending u client_methods hello p
        (on_incoming_handshake (new_server name client_name client_methods u) span p)
unfolding on_incoming_handshake
on_incoming_handshake-Ending name client_name client_methods u span hello p got up none_yet =
    rw got (greet-End name client_name client_methods u hello p up none_yet)
