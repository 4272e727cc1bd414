-- ===== src/Programs/Binding.antt =====
-- What a server listens on once its program has bound it.
use smoljudge.Prelude.{
  ℕ, suc, ◌≡◌, refl, sym, ap, ◌∙◌, Bool, true, false, not, ◌&&◌, List, [], ◌∷◌, ◌++◌, append-nil,
  append_assoc, map, if◌then◌else◌, Bool-cases, inl, inr,
}
use smoljudge.Prelude.Outcome.{Outcome, ok, throws, undefined}
use smoljudge.Prelude.Text.{Text}
use smoljudge.Rpc.Listener.{Listener, Reachable, bind_impl, bind_path, goes_on, binds, binds_path}
use smoljudge.Rpc.Address.{is_path, bound, bind, tcp_address}
use smoljudge.Programs.{System, Main, started, bind_all}
use smoljudge.Programs.Ends.{MainEnsures, MainEnsures-imp, main_value-Ensures, IsOne}

-- A listener that nobody has connected to yet, and that has closed and removed nothing.
abbrev pub IsFresh : Listener → Type 0
IsFresh l = Reachable l × (l.clients ≡ []) × (l.closed ≡ []) × (l.removed ≡ [])

added :
    {B : Type 0} (before one rest : List B) {between after : List B}
    → after ≡ between ++ rest
    → between ≡ before ++ one
    → after ≡ before ++ (one ++ rest)
added before one rest last first = last ∙ ap (λ xs. xs ++ rest) first ∙ append_assoc before one rest

module _ {A : Type 0} (sys : System A) where
  abbrev one_handle : Text → ℕ → List ℕ
  one_handle address handle = if is_path address && sys.exists address then [] else handle ∷ []

  abbrev one_file : Text → List Text
  one_file address = if is_path address && not (sys.exists address) then address ∷ [] else []

  -- The n-th address is listened on by the n-th handle, unless it is the path of a file that exists.
  unfoldable pub handles_of : List Text → ℕ → List ℕ
  handles_of [] handle = []
  handles_of (address ∷ rest) handle = one_handle address handle ++ handles_of rest (suc handle)

  -- The paths among the addresses, but for those of files that exist.
  unfoldable pub files_of : List Text → List Text
  files_of [] = []
  files_of (address ∷ rest) = one_file address ++ files_of rest

  -- All addresses could be read, and `l'` is what binding them makes of `l`.
  pub record IsBound (addresses : List (Outcome Text)) (handle : ℕ) (l l' : Listener) : Type 0 where
    pub texts : List Text
    pub readable : addresses ≡ map ok texts
    pub handles : l'.server_stop_methods ≡ l.server_stop_methods ++ handles_of texts handle
    pub files : l'.unix_domain_sockets ≡ l.unix_domain_sockets ++ files_of texts
    pub fresh : IsFresh l'

  record IsBoundOne (address : Text) (handle : ℕ) (l l' : Listener) : Type 0 where
    handle_added : l'.server_stop_methods ≡ l.server_stop_methods ++ one_handle address handle
    file_added : l'.unix_domain_sockets ≡ l.unix_domain_sockets ++ one_file address
    still_fresh : IsFresh l'

  bind_path-IsBoundOne :
      (b : Bool) (address : Text) (handle : ℕ) (l : Listener)
      → is_path address ≡ true
      → sys.exists address ≡ b
      → IsFresh l
      → IsBoundOne address handle l (bind_path b address handle l)
  unfolding bind_path bind_impl
  bind_path-IsBoundOne true address handle l path there h = record {
    handle_added = rw (path, there) (sym (append-nil l.server_stop_methods));
    file_added = rw (path, there) (sym (append-nil l.unix_domain_sockets));
    still_fresh = h;
  }
  bind_path-IsBoundOne false address handle l path there (r, c, d, e) = record {
    handle_added = rw (path, there) refl;
    file_added = rw (path, there) refl;
    still_fresh = (goes_on r (binds_path false address handle), c, d, e);
  }

  module _ (P : Listener → Type 0) where
    bound-IsBoundOne :
        (o : Outcome A) (address : Text) (handle : ℕ) (l : Listener) (k : Listener → Main Listener)
        → is_path address ≡ false
        → IsFresh l
        → ((l' : Listener) → IsBoundOne address handle l l' → MainEnsures P IsOne (k l'))
        → MainEnsures P IsOne (started sys (bound o handle l) k)
    unfolding bind_impl
    bound-IsBoundOne (ok a) address handle l k other (r, c, d, e) go =
        go (bind_impl handle l) (record {
          handle_added = rw other refl;
          file_added = rw other (sym (append-nil l.unix_domain_sockets));
          still_fresh = (goes_on r (binds handle), c, d, e);
        })
    bound-IsBoundOne (throws x) address handle l k other h go = tt
    bound-IsBoundOne undefined address handle l k other h go = tt

    bind-IsBoundOne :
        (address : Text) (handle : ℕ) (l : Listener) (k : Listener → Main Listener)
        → IsFresh l
        → ((l' : Listener) → IsBoundOne address handle l l' → MainEnsures P IsOne (k l'))
        → MainEnsures P IsOne (started sys (bind sys.resolve sys.exists address handle l) k)
    unfolding bind
    bind-IsBoundOne address handle l k h go = elim (Bool-cases (is_path address)) [
      | inl path ↦ rw path (
          go (bind_path (sys.exists address) address handle l)
            (bind_path-IsBoundOne (sys.exists address) address handle l path refl h))
      | inr other ↦
          rw other
            (bound-IsBoundOne (tcp_address sys.resolve address) address handle l k other h go)
    ]

  pub bind_all-IsBound :
      (addresses : List (Outcome Text)) (handle : ℕ) (l : Listener)
      → IsFresh l
      → MainEnsures (IsBound addresses handle l) IsOne (bind_all sys addresses handle l)
  unfolding bind_all handles_of files_of
  bind_all-IsBound [] handle l h = record {
    texts = [];
    readable = refl;
    handles = sym (append-nil l.server_stop_methods);
    files = sym (append-nil l.unix_domain_sockets);
    fresh = h;
  }
  bind_all-IsBound (address ∷ rest) handle l h =
      let P = IsBound (address ∷ rest) handle l in
      main_value-Ensures IsOne P address _ λ text read.
        bind-IsBoundOne P text handle l _ h λ l' one.
          MainEnsures-imp (IsBound rest (suc handle) l') P IsOne (bind_all sys rest (suc handle) l')
            (λ q b. record {
              texts = text ∷ b.texts;
              readable = cc (read, b.readable);
              handles =
                  added l.server_stop_methods (one_handle text handle)
                    (handles_of b.texts (suc handle)) b.handles one.handle_added;
              files =
                  added l.unix_domain_sockets (one_file text) (files_of b.texts) b.files
                    one.file_added;
              fresh = b.fresh;
            })
            (bind_all-IsBound rest (suc handle) l' one.still_fresh)
