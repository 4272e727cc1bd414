-- ===== src/Rpc/Client/Stopping.antt =====
-- A client that is stopped, and what the timers of `reconnect` do then.
use smoljudge.Prelude.{
  ℕ, ◌+◌, ◌≡◌, refl, ap, ◌∙◌, Bool, true, false, List, [], ◌∷◌, none, some, Bool-cases,
  Option-cases, inl, inr, ◌==◌, eq_refl, arith,
}
use smoljudge.Prelude.Dict.{lookup, emplace, nat_eq, lookup-erase, lookup-emplace}
use smoljudge.Rpc.Client.{
  ClientState, ClientPeer, with_state, release, close_timer, start_timer, stop_client,
  count_failure, start_if_active, reconnect, backoff,
}

-- What `release` keeps of the state.
release-state :
    (p : ClientPeer) → (release p).owner.state ≡ record p.owner.state { has_sock = false }
unfolding release
release-state p = elim (Bool-cases p.owner.state.has_sock) [
  | inl here ↦ rw here refl
  | inr away ↦ rw away refl
]

close_timer-timer :
    (c : ClientState)
    → ((close_timer c).timer ≡ none)
      × ((close_timer c).has_sock ≡ c.has_sock)
      × ((close_timer c).is_active ≡ c.is_active)
unfolding close_timer
close_timer-timer c = elim (Option-cases c.timer) [
  | inl off ↦ rw off (refl, refl, refl)
  | inr (t, on) ↦ rw on (refl, refl, refl)
]

reconnect_inactive :
    (p : ClientPeer) (due_to_failure : Bool)
    → p.owner.state.has_sock ≡ false
    → p.owner.state.is_active ≡ false
    → reconnect due_to_failure p
      ≡ with_state p (record (count_failure due_to_failure p.owner.state) { has_sock = false })
unfolding reconnect release count_failure start_if_active
reconnect_inactive p due_to_failure away off = rw (away, off)

-- No socket, not active and no timer that the client knows of.
abbrev pub IsAtRest : ClientPeer → Type 0
IsAtRest p =
    (p.owner.state.has_sock ≡ false)
    × (p.owner.state.is_active ≡ false)
    × (p.owner.state.timer ≡ none)

-- The same socket, session, timers that run and timers started so far.
abbrev pub IsIdle : ClientPeer → ClientPeer → Type 0
IsIdle p q =
    (q.socket ≡ p.socket)
    × (q.owner.session ≡ p.owner.session)
    × (q.owner.state.timers ≡ p.owner.state.timers)
    × (q.owner.state.started_timers ≡ p.owner.state.started_timers)

-- `reconnect` is called again and again, each time due to a failure or not.
unfoldable pub reconnects : List Bool → ClientPeer → ClientPeer
reconnects [] p = p
reconnects (due_to_failure ∷ more) p = reconnects more (reconnect due_to_failure p)

reconnects-IsAtRest :
    (causes : List Bool) (p : ClientPeer)
    → IsAtRest p
    → IsAtRest (reconnects causes p) × IsIdle p (reconnects causes p)
unfolding reconnects count_failure
reconnects-IsAtRest [] p h = (h, (refl, refl, refl, refl))
reconnects-IsAtRest (cause ∷ more) p (away, off, timer) =
    let e = reconnect_inactive p cause away off in
    let rest : IsAtRest (reconnect cause p) = rw e (refl, off, timer) in
    let (h, (sock, session, timers, started)) = reconnects-IsAtRest more (reconnect cause p) rest in
    (
      h,
      (
        sock ∙ ap (λ r. r.socket) e,
        session ∙ ap (λ r. r.owner.session) e,
        timers ∙ ap (λ r. r.owner.state.timers) e,
        started ∙ ap (λ r. r.owner.state.started_timers) e,
      ),
    )

-- A stopped client has no socket, is not active and knows of no timer; and as long as no timer
-- fires, calls of `reconnect`, such as that of the close event that its own stop brings about, leave
-- it so however many come: they start no timer, call nothing on the socket and leave the session alone.
pub reconnects-stop_client :
    (p : ClientPeer) (causes : List Bool)
    → IsAtRest (reconnects causes (stop_client p))
      × IsIdle (stop_client p) (reconnects causes (stop_client p))
unfolding stop_client
reconnects-stop_client p causes =
    let p' = with_state p (record p.owner.state { is_active = false }) in
    let (off, sock, active) = close_timer-timer (release p').owner.state in
    reconnects-IsAtRest causes (stop_client p) (
      sock ∙ ap (λ c. c.has_sock) (release-state p'),
      active ∙ ap (λ c. c.is_active) (release-state p'),
      off,
    )

reconnect-state :
    (p : ClientPeer) (due_to_failure : Bool)
    → p.owner.state.is_active ≡ true
    → let c = record (count_failure due_to_failure p.owner.state) { has_sock = false } in
      (reconnect due_to_failure p).owner.state ≡ start_timer (backoff c.n_failures) c
unfolding reconnect release count_failure start_if_active
reconnect-state p due_to_failure on = elim (Bool-cases p.owner.state.has_sock) [
  | inl here ↦ rw (here, on)
  | inr away ↦ rw (away, on)
]

stop_client-state :
    (p : ClientPeer)
    → (stop_client p).owner.state
      ≡ close_timer (record p.owner.state { is_active = false; has_sock = false })
unfolding stop_client
stop_client-state p =
    ap close_timer (release-state (with_state p (record p.owner.state { is_active = false })))

close_timer-start_timer :
    (c : ClientState) (a b : ℕ)
    → lookup c.started_timers c.timers ≡ none
    → lookup (c.started_timers + 1) c.timers ≡ none
    → lookup c.started_timers (close_timer (start_timer b (start_timer a c))).timers ≡ some a
unfolding close_timer start_timer
close_timer-start_timer c a b fresh fresher =
    let t = c.started_timers in
    let up : (t == t + 1) ≡ false = ground arith in
    let down : (t + 1 == t) ≡ false = ground arith in
    let still : lookup (t + 1) (emplace t a c.timers) ≡ none =
      rw (lookup-emplace t (t + 1) a c.timers fresh, up) fresher in
    lookup-erase (t + 1) t (emplace (t + 1) b (emplace t a c.timers))
    ∙ rw (
      down,
      lookup-emplace (t + 1) t b (emplace t a c.timers) still,
      down,
      lookup-emplace t t a c.timers fresh,
      eq_refl t,
    )

-- When `reconnect` is called again on an active client before the timer of the first call has run
-- out, as it is by the close event of the handle that the first call closes, the client forgets
-- the first timer: even after it is stopped, that timer is still running. The two timers get
-- identities that are not in use.
pub stop_client-reconnect_twice :
    (p : ClientPeer) (first second : Bool)
    → p.owner.state.is_active ≡ true
    → lookup p.owner.state.started_timers p.owner.state.timers ≡ none
    → lookup (p.owner.state.started_timers + 1) p.owner.state.timers ≡ none
    → (seconds : ℕ) × (lookup p.owner.state.started_timers
          (stop_client (reconnect second (reconnect first p))).owner.state.timers
        ≡ some seconds)
unfolding close_timer start_timer count_failure
stop_client-reconnect_twice p first second on fresh fresher =
    let q = reconnect first p in
    let one = reconnect-state p first on in
    let c : ClientState = record (count_failure first p.owner.state) { has_sock = false } in
    let again = λ (s : ClientState).
      let d : ClientState = record (count_failure second s) { has_sock = false } in
      start_timer (backoff d.n_failures) d in
    let two = reconnect-state q second (ap (λ s. s.is_active) one ∙ on) ∙ ap again one in
    (
      backoff c.n_failures,
      ap (λ s. lookup p.owner.state.started_timers s.timers)
            (stop_client-state (reconnect second q)
              ∙ ap (λ s. close_timer (record s { is_active = false; has_sock = false })) two)
          ∙ close_timer-start_timer c (backoff c.n_failures)
              (backoff (again (start_timer (backoff c.n_failures) c)).n_failures) fresh fresher,
    )
