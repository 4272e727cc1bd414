-- ===== src/Rpc/Address/Splitting.antt =====
-- Which host and port an address stands for.
use smoljudge.Prelude.{
  ℕ, ◌+◌, ◌≡◌, refl, sym, ap, ◌∙◌, Bool, false, [], ◌∷◌, ◌++◌, length, drop, take-append_length,
  drop-append_length, append_assoc, length-append, All, ◌==◌, eq_refl, Option, none, some,
  Bool-cases, inl, inr,
}
use smoljudge.Prelude.Outcome.{Outcome, ok, throws, undefined, ◌>>=◌, no_port}
use smoljudge.Prelude.Run.{raised, RunEnsures}
use smoljudge.Prelude.Text.{Text}
use smoljudge.Rpc.Listener.{Listener, Reachable, goes_on, binds, binds_path}
use smoljudge.Rpc.Address.{
  is_path, rfind, tcp, resolve_name, tcp_address, client_target, bound, bind,
}

abbrev pub IsFree : ℕ → Text → Type 0
IsFree c s = All (λ x. x == c ≡ false) s

rfind-none : (c : ℕ) (s : Text) → IsFree c s → rfind c s ≡ none
unfolding rfind
rfind-none c [] free = refl
rfind-none c (x ∷ s) (other, free) = rw (rfind-none c s free, other) refl

-- The last occurrence, whatever stands before it.
rfind-append :
    (c : ℕ) (before after : Text)
    → IsFree c after
    → rfind c (before ++ c ∷ after) ≡ some (length before)
unfolding rfind
rfind-append c [] after free = rw (rfind-none c after free, eq_refl c) refl
rfind-append c (x ∷ before) after free = rw (rfind-append c before after free) refl

drop_behind :
    (before : Text) (c : ℕ) (after : Text) → drop (length before + 1) (before ++ c ∷ after) ≡ after
drop_behind before c after =
    ap (drop (length before + 1)) (sym (append_assoc before (c ∷ []) after))
    ∙ drop-append_length (length before + 1) (before ++ c ∷ []) after
        (length-append before (c ∷ []))

module _ {A : Type 0} (resolve : Text → Text → Option A) where
  split_lem :
      (host port : Text)
      → IsFree b':' port
      → tcp_address resolve (host ++ b':' ∷ port) ≡ resolve_name resolve host port
  unfolding tcp_address
  split_lem host port free =
      rw
        (
          tcp_address,
          rfind-append b':' host port free,
          take-append_length (length host) host (b':' ∷ port) refl,
          drop_behind host b':' port,
        )
        refl

  no_port_lem :
      (address : Text) → IsFree b':' address → tcp_address resolve address ≡ throws no_port
  unfolding tcp_address
  no_port_lem address free = rw (tcp_address, rfind-none b':' address free) refl

  -- An address that is no path is split at its last colon, so that the host may hold colons as in
  -- IPv6: a client connects to what the system resolves host and port to, and a server binds a handle
  -- to that. Without a colon both throw.
  pub client_target-bind :
      (host port address : Text) (exists : Text → Bool) (handle : ℕ) (l : Listener)
      → IsFree b':' port
      → is_path (host ++ b':' ∷ port) ≡ false
      → IsFree b':' address
      → is_path address ≡ false
      → (client_target resolve (host ++ b':' ∷ port)
          ≡ (resolve_name resolve host port >>= λ a. ok (tcp a)))
        × (bind resolve exists (host ++ b':' ∷ port) handle l
            ≡ bound (resolve_name resolve host port) handle l)
        × (client_target resolve address ≡ throws no_port)
        × (bind resolve exists address handle l ≡ raised no_port l)
  unfolding client_target bind
  client_target-bind host port address exists handle l free no_path free' no_path' = (
    rw (no_path, split_lem host port free) refl,
    rw (no_path, split_lem host port free) refl,
    rw (no_path', no_port_lem address free') refl,
    rw (no_path', no_port_lem address free') refl,
  )

  bound-Reachable :
      (r : Outcome A) (handle : ℕ) (l : Listener)
      → Reachable l
      → RunEnsures Reachable (bound r handle l)
  bound-Reachable (ok a) handle l h = goes_on h (binds handle)
  bound-Reachable (throws e) handle l h = tt
  bound-Reachable undefined handle l h = tt

  -- `bind`, where it returns, leaves the server in a state that it can be in.
  pub bind-Reachable :
      (exists : Text → Bool) (address : Text) (handle : ℕ) (l : Listener)
      → Reachable l
      → RunEnsures Reachable (bind resolve exists address handle l)
  unfolding bind
  bind-Reachable exists address handle l h = elim (Bool-cases (is_path address)) [
    | inl path ↦ rw path (goes_on h (binds_path (exists address) address handle))
    | inr other ↦ rw other (bound-Reachable (tcp_address resolve address) handle l h)
  ]
