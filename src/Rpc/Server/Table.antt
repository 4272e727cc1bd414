-- ===== src/Rpc/Server/Table.antt =====
-- The table of a server's methods by their names, which the constructor in rpc/src/server.cpp builds.
use smoljudge.Prelude.{
  ℕ, zero, suc, ◌+◌, ◌≡◌, refl, sym, subst, ◌∙◌, ◌⊎◌, inl, inr, true, false, List, [], ◌∷◌, ◌++◌,
  append_assoc, length, length-append, get_elem?, bytes_eq, bytes_eq→eq, bytes_eq_refl, some,
  Bool-cases, arith,
}
use smoljudge.Prelude.Text.{Text}
use smoljudge.Prelude.Int.{ℤ, pos}
use smoljudge.Prelude.Dict.{Dict, lookup, assign, lookup-assign, text_eq}
use smoljudge.Rpc.Session.{Endpoint, User, Method, MethodImpl}
use smoljudge.Rpc.Server.{register_methods, new_server}

-- The id is the position of a method of that name.
abbrev pub PointsTo : {S : Type 0} → List (MethodImpl S) → Text → ℤ → Type 0
PointsTo {S} ms name id =
    (i : ℕ) × (m : MethodImpl S) × (id ≡ pos i) × (get_elem? ms i ≡ some m) × (m.name ≡ name)

-- Every entry of the table is the position of a method of that name.
abbrev pub IsTable : {S : Type 0} → List (MethodImpl S) → Dict Text ℤ → Type 0
IsTable ms ids = (name : Text) (id : ℤ) → lookup name ids ≡ some id → PointsTo ms name id

pub get_elem?-append :
    {A : Type 0} (xs : List A) (y : A) (ys : List A)
    → get_elem? (xs ++ (y ∷ ys)) (length xs) ≡ some y
get_elem?-append [] y ys = refl
get_elem?-append (x ∷ xs) y ys = get_elem?-append xs y ys

pub assign-IsTable :
    {S : Type 0} (all : List (MethodImpl S)) (m : MethodImpl S) (i : ℕ) (ids : Dict Text ℤ)
    → get_elem? all i ≡ some m
    → IsTable all ids
    → IsTable all (assign m.name (pos i) ids)
assign-IsTable all m i ids at h name id e = elim (Bool-cases (bytes_eq m.name name)) [
  | inl same ↦
      let found : some (pos i) ≡ some id = rw (lookup-assign m.name name (pos i) ids, same) at e in
      (i, m, cc, at, bytes_eq→eq m.name name same)
  | inr other ↦ h name id (rw (lookup-assign m.name name (pos i) ids, other) at e)
]

-- `before` are the methods that the loop has passed.
register-IsTable :
    {S : Type 0} (all before ms : List (MethodImpl S)) (i : ℕ) (ids : Dict Text ℤ)
    → all ≡ before ++ ms
    → i ≡ length before
    → IsTable all ids
    → IsTable all (register_methods ms i ids)
unfolding register_methods
register-IsTable all before [] i ids e n h = h
register-IsTable all before (m ∷ ms) i ids e n h =
    register-IsTable all (before ++ m ∷ []) ms (i + 1) (assign m.name (pos i) ids)
      (e ∙ sym (append_assoc before (m ∷ []) ms)) (omega (arith, n, length-append before (m ∷ [])))
      (assign-IsTable all m i ids (rw (e, n) (get_elem?-append before m ms)) h)

-- The table that the constructor builds names methods by their positions.
pub new_server-IsTable :
    {O : Type 0} (name client_name : Text) (client_methods : List Method) (u : User (Endpoint O))
    → IsTable u.methods (new_server name client_name client_methods u).server_method_name_to_id
unfolding new_server lookup
new_server-IsTable name client_name client_methods u =
    register-IsTable u.methods [] u.methods 0 [] refl refl (λ name id e. cc)

unfoldable pub HasEntry : Text → Dict Text ℤ → Type 0
HasEntry name ids = (id : ℤ) × (lookup name ids ≡ some id)

pub assign-HasEntry :
    (name k : Text) (v : ℤ) (ids : Dict Text ℤ)
    → (HasEntry name ids ⊎ (k ≡ name))
    → HasEntry name (assign k v ids)
unfolding HasEntry
assign-HasEntry name k v ids h = elim (Bool-cases (bytes_eq k name)) [
  | inl same ↦ (v, rw (lookup-assign k name v ids, same))
  | inr other ↦ elim h [
    | inl (id, e) ↦ (id, rw (lookup-assign k name v ids, other) e)
    | inr same ↦ absurd (clash k name other same)
  ]
]
  where
    clash : (a b : Text) → bytes_eq a b ≡ false → a ≡ b → ⊥
    clash a b other same =
        let yes_eq : bytes_eq a b ≡ true =
          subst (λ c. bytes_eq a c ≡ true) same (bytes_eq_refl a) in
        cc (yes_eq, other)

register-keeps :
    {S : Type 0} (name : Text) (ms : List (MethodImpl S)) (i : ℕ) (ids : Dict Text ℤ)
    → HasEntry name ids
    → HasEntry name (register_methods ms i ids)
unfolding register_methods
register-keeps name [] i ids h = h
register-keeps name (m ∷ ms) i ids h =
    register-keeps name ms (i + 1) (assign m.name (pos i) ids)
      (assign-HasEntry name m.name (pos i) ids (inl h))

pub register-HasEntry :
    {S : Type 0} (ms : List (MethodImpl S)) (i k : ℕ) (m : MethodImpl S) (ids : Dict Text ℤ)
    → get_elem? ms k ≡ some m
    → HasEntry m.name (register_methods ms i ids)
unfolding register_methods
register-HasEntry [] i k m ids e = cc
register-HasEntry (x ∷ ms) i zero m ids e =
    register-keeps m.name ms (i + 1) (assign x.name (pos i) ids)
      (assign-HasEntry m.name x.name (pos i) ids (inr (ground arith)))
register-HasEntry (x ∷ ms) i (suc k) m ids e =
    register-HasEntry ms (i + 1) k m (assign x.name (pos i) ids) e

-- No two methods have one name.
abbrev pub DistinctNames : {S : Type 0} → List (MethodImpl S) → Type 0
DistinctNames {S} ms =
    (i j : ℕ) (m n : MethodImpl S)
    → get_elem? ms i ≡ some m
    → get_elem? ms j ≡ some n
    → m.name ≡ n.name
    → i ≡ j
