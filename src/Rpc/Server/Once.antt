-- ===== src/Rpc/Server/Once.antt =====
-- The promises that wait and those that have been set: no promise is in both.
use smoljudge.Prelude.{
  ℕ, ◌+◌, ◌%◌, ◌^◌, ◌<◌, ◌≡◌, refl, sym, subst, ◌∙◌, false, List, [], ◌∷◌, ◌==◌, ==_iff, eq_refl,
  none, some, Bool-cases, Option-cases, inl, inr, All, arith,
}
use smoljudge.Prelude.Dict.{
  Dict, lookup, erase, emplace, nat_eq, text_eq, lookup-erase, lookup-emplace,
}
use smoljudge.Prelude.Run.{RunLeaves}
use smoljudge.Wire.Types.{Bytes}
use smoljudge.Socket.{Peer, write, on_socket}
use smoljudge.Rpc.Session.{Endpoint, PromiseId}

-- The state of the user has a part of its own and a log of the promises that are set, the last one
-- first.
pub record Logging (W : Type 0) : Type 0 where
  pub own : W
  pub log : List PromiseId

abbrev pub Log : Type 0 → Type 0
Log W = Endpoint (Logging W)

abbrev pub logged : {W : Type 0} → PromiseId → Peer (Log W) → Peer (Log W)
logged k p = record p {
  owner = record p.owner { state = record p.owner.state { log = k ∷ p.owner.state.log } };
}

abbrev pub AllDistinct : List ℕ → Type 0
AllDistinct [] = Unit {0}
AllDistinct (x ∷ xs) = All (λ y. x == y ≡ false) xs × AllDistinct xs

-- The promises that wait are of ids given out, each set one is of an id given out that waits no more,
-- and none is set twice.
pub record SetOnce (promises : Dict ℕ PromiseId) (next : ℕ) (log : List PromiseId) : Type 0 where
  pub issued : (k v : ℕ) → lookup k promises ≡ some v → (v ≡ k) × (k < next)
  pub settled : All (λ k. (k < next) × (lookup k promises ≡ none)) log
  pub distinct : AllDistinct log

abbrev pub IsSetOnce : {W : Type 0} → Peer (Log W) → Type 0
IsSetOnce p = SetOnce p.owner.session.promises p.owner.session.next_message_id p.owner.state.log

-- The two have the same promises, ids and log.
abbrev pub Same : {W : Type 0} → Peer (Log W) → Peer (Log W) → Type 0
Same p q =
    (q.owner.session.promises ≡ p.owner.session.promises)
    × (q.owner.session.next_message_id ≡ p.owner.session.next_message_id)
    × (q.owner.state.log ≡ p.owner.state.log)

pub Same-IsSetOnce : {W : Type 0} (p q : Peer (Log W)) → Same p q → IsSetOnce p → IsSetOnce q
Same-IsSetOnce p q (a, b, c) h = rw (a, b, c) h

All-imp :
    {A : Type 0} (P Q : A → Type 0) (xs : List A) → ((x : A) → P x → Q x) → All P xs → All Q xs
All-imp P Q [] f h = tt
All-imp P Q (x ∷ xs) f (one, h) = (f x one, All-imp P Q xs f h)

abbrev Settled : Dict ℕ PromiseId → ℕ → PromiseId → Type 0
Settled promises next k = (k < next) × (lookup k promises ≡ none)

-- A promise that waits is not among those that have been set.
not_settled :
    (promises : Dict ℕ PromiseId) (next k v j : ℕ)
    → lookup k promises ≡ some v
    → v ≡ k
    → Settled promises next j
    → v == j ≡ false
not_settled promises next k v j found same (lt, gone) = elim (Bool-cases (v == j)) [
  | inr other ↦ other
  | inl here ↦
      let there : lookup j promises ≡ some v =
        subst (λ i. lookup i promises ≡ some v) (sym same ∙ (==_iff v j).0 here) found in
      cc (there, gone)
]

erase-Settled :
    (promises : Dict ℕ PromiseId) (next k j : ℕ)
    → Settled promises next j
    → Settled (erase k promises) next j
erase-Settled promises next k j (lt, gone) = elim (Bool-cases (k == j)) [
  | inl here ↦ (lt, rw (lookup-erase k j promises, here) refl)
  | inr other ↦ (lt, rw (lookup-erase k j promises, other) gone)
]

pub set_once :
    (promises : Dict ℕ PromiseId) (next : ℕ) (log : List PromiseId) (k v : ℕ)
    → lookup k promises ≡ some v
    → SetOnce promises next log
    → SetOnce (erase k promises) next (v ∷ log)
set_once promises next log k v found h = record {
  issued = λ j w e. elim (Bool-cases (k == j)) [
    | inl same ↦ cc (rw (lookup-erase k j promises, same) at e)
    | inr other ↦ h.issued j w (rw (lookup-erase k j promises, other) at e)
  ];
  settled = (
    (
      omega (arith, (h.issued k v found).0, (h.issued k v found).1),
      rw ((h.issued k v found).0, lookup-erase k k promises, eq_refl k) refl,
    ),
    All-imp (Settled promises next) (Settled (erase k promises) next) log
        (erase-Settled promises next k) h.settled,
  );
  distinct = (
    All-imp (Settled promises next) (λ j. v == j ≡ false) log
        (λ j. not_settled promises next k v j found (h.issued k v found).0) h.settled,
    h.distinct,
  );
}

-- A call takes the next id, which no promise has had.
pub call_made :
    (promises : Dict ℕ PromiseId) (next : ℕ) (log : List PromiseId)
    → next + 1 < 2 ^ 64
    → SetOnce promises next log
    → SetOnce (emplace next next promises) ((next + 1) % 2 ^ 64) log
call_made promises next log room h =
    let fresh : lookup next promises ≡ none = elim (Option-cases (lookup next promises)) [
      | inl missing ↦ missing
      | inr (v, found) ↦ absurd (omega (arith, (h.issued next v found).1))
    ] in
    record {
      issued = λ k v e. elim (Bool-cases (next == k)) [
        | inl same ↦
            let new : some next ≡ some v =
              rw (lookup-emplace next k next promises fresh, same) at e in
            ground (arith, room, (==_iff next k).0 same)
        | inr other ↦
            let old : lookup k promises ≡ some v =
              rw (lookup-emplace next k next promises fresh, other) at e in
            ground (arith, room, h.issued k v old)
      ];
      settled =
          All-imp (Settled promises next)
            (Settled (emplace next next promises) ((next + 1) % 2 ^ 64)) log
            (λ k (lt, gone).
              let other : next == k ≡ false = ground (arith, lt) in
              (omega (arith, lt, room), rw (lookup-emplace next k next promises fresh, other) gone))
            h.settled;
      distinct = h.distinct;
    }

-- A call that fails spends its id all the same.
pub id_spent :
    (promises : Dict ℕ PromiseId) (next : ℕ) (log : List PromiseId)
    → next + 1 < 2 ^ 64
    → SetOnce promises next log
    → SetOnce promises ((next + 1) % 2 ^ 64) log
id_spent promises next log room h = record {
  issued = λ k v e. ground (arith, room, h.issued k v e);
  settled =
      All-imp (Settled promises next) (Settled promises ((next + 1) % 2 ^ 64)) log
        (λ k (lt, gone). (omega (arith, lt, room), gone)) h.settled;
  distinct = h.distinct;
}

pub write-IsSetOnce :
    {W : Type 0} (p : Peer (Log W)) (bytes : Bytes)
    → IsSetOnce p
    → RunLeaves IsSetOnce (on_socket p (write bytes p.socket))
unfolding write
write-IsSetOnce p bytes h = elim (Bool-cases p.socket.is_connected) [
  | inl up ↦ rw up h
  | inr down ↦ rw down h
]
