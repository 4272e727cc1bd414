-- ===== src/Rpc/Protocol/Lists.antt =====
-- The lists of methods of one protocol at its two ends: the same names and signatures in the same
-- places.
use smoljudge.Prelude.{
  ℕ, zero, suc, ◌≡◌, refl, sym, ap, ◌∙◌, List, [], ◌∷◌, ◌++◌, append_assoc, append-nil, map, length,
  get_elem?, some, arith, ◌+◌,
}
use smoljudge.Prelude.Int.{ℤ, pos}
use smoljudge.Prelude.Text.{Text}
use smoljudge.Wire.TypeString.{signature_string}
use smoljudge.Rpc.Session.{Method, MethodImpl}
use smoljudge.Rpc.Reflection.{typed_method}
use smoljudge.Rpc.Server.Acceptance.{DistinctKeys, DistinctMethods}
use smoljudge.Rpc.Server.Handshake.{Answers}
use smoljudge.Rpc.Server.Table.{DistinctNames}
use smoljudge.Rpc.Client.{named, named_impl}
use smoljudge.Rpc.Protocol.{
  Announcement, Protocol, Member, announce_methods, generic_methods, announced_impl, announce_impls,
  generic_impls,
}
use mathlib.Core.Option.{some-injective}

-- No two announcements have one name: they would declare one member twice.
abbrev pub DistinctAnnouncements : List Announcement → Type 0
DistinctAnnouncements all =
    (i j : ℕ) (a b : Announcement)
    → get_elem? all i ≡ some a
    → get_elem? all j ≡ some b
    → a.method_name ≡ b.method_name
    → i ≡ j

abbrev pub method_of : Announcement → Method
method_of a = record { name = a.method_name; signature = signature_string a.ret a.args }

announce_methods-map :
    (anns : List Announcement) (ms : List Method)
    → announce_methods anns ms ≡ ms ++ map method_of anns
unfolding announce_methods
announce_methods-map [] ms = sym (append-nil ms)
announce_methods-map (a ∷ anns) ms =
    announce_methods-map anns (ms ++ method_of a ∷ [])
    ∙ append_assoc ms (method_of a ∷ []) (map method_of anns)

pub generic_methods-map : (p : Protocol) → generic_methods p ≡ map method_of p.announcements
unfolding generic_methods
generic_methods-map p = announce_methods-map p.announcements []

module _ {S : Type 0} (member : Text → Member S) where
  announce_impls-map :
      (anns : List Announcement) (ms : List (MethodImpl S))
      → announce_impls member anns ms ≡ ms ++ map (announced_impl member) anns
  unfolding announce_impls
  announce_impls-map [] ms = sym (append-nil ms)
  announce_impls-map (a ∷ anns) ms =
      announce_impls-map anns (ms ++ announced_impl member a ∷ [])
      ∙ append_assoc ms (announced_impl member a ∷ []) (map (announced_impl member) anns)

  pub generic_impls-map :
      (p : Protocol) → generic_impls member p ≡ map (announced_impl member) p.announcements
  unfolding generic_impls
  generic_impls-map p = announce_impls-map p.announcements []

module _ {A B : Type 0} (f : A → B) where
  pub get_elem?-map :
      (xs : List A) (i : ℕ) (x : A) → get_elem? xs i ≡ some x → get_elem? (map f xs) i ≡ some (f x)
  get_elem?-map [] i x at = cc
  get_elem?-map (y ∷ xs) zero x at = ap some (ap f (some-injective y x at))
  get_elem?-map (y ∷ xs) (suc i) x at = get_elem?-map xs i x at

  pub get_elem?-map_back :
      (xs : List A) (i : ℕ) (y : B)
      → get_elem? (map f xs) i ≡ some y
      → (x : A) × (get_elem? xs i ≡ some x) × (f x ≡ y)
  get_elem?-map_back [] i y at = cc
  get_elem?-map_back (x ∷ xs) zero y at = (x, refl, some-injective (f x) y at)
  get_elem?-map_back (x ∷ xs) (suc i) y at = get_elem?-map_back xs i y at

module _ (anns : List Announcement) (distinct : DistinctAnnouncements anns) where
  -- A list that has the announcements' names in their places has each name once.
  map-distinct :
      {B : Type 0} (f : Announcement → B) (name : B → Text)
      → ((a : Announcement) → name (f a) ≡ a.method_name)
      → (i j : ℕ) (m n : B) → get_elem? (map f anns) i ≡ some m
      → get_elem? (map f anns) j ≡ some n
      → name m ≡ name n
      → i ≡ j
  map-distinct f name keeps i j m n at at' same =
      let (a, here, e) = get_elem?-map_back f anns i m at in
      let (b, there, e') = get_elem?-map_back f anns j n at' in
      distinct i j a b here there (sym (keeps a) ∙ ap name e ∙ same ∙ ap name (sym e') ∙ keeps b)

  pub methods-DistinctMethods : DistinctMethods (map method_of anns)
  methods-DistinctMethods = map-distinct method_of (λ (m : Method). m.name) (λ a. refl)

  pub impls-DistinctNames :
      {S : Type 0} (member : Text → Member S) → DistinctNames (map (announced_impl member) anns)
  unfolding announced_impl typed_method
  impls-DistinctNames {S} member =
      map-distinct (announced_impl member) (λ (m : MethodImpl S). m.name) (λ a. refl)

-- The positions from `i` on.
unfoldable pub positions : ℕ → ℕ → List ℤ
positions i zero = []
positions i (suc n) = pos i ∷ positions (i + 1) n

map-map :
    {A B C : Type 0} (g : B → C) (f : A → B) (xs : List A)
    → map g (map f xs) ≡ map (λ x. g (f x)) xs
map-map g f [] = refl
map-map g f (x ∷ xs) = ap (λ ys. g (f x) ∷ ys) (map-map g f xs)

abbrev pub key_of : Announcement → Text × Text
key_of a = (a.method_name, signature_string a.ret a.args)

-- What a client advertises, and what it asks for.
pub named_impl-map :
    {S : Type 0} (member : Text → Member S) (anns : List Announcement)
    → map named_impl (map (announced_impl member) anns) ≡ map key_of anns
unfolding announced_impl typed_method
named_impl-map member anns = map-map named_impl (announced_impl member) anns

pub named-map : (anns : List Announcement) → map named (map method_of anns) ≡ map key_of anns
named-map anns = map-map named method_of anns

pub keys-DistinctKeys :
    (anns : List Announcement) → DistinctAnnouncements anns → DistinctKeys (map key_of anns)
keys-DistinctKeys anns distinct =
    map-distinct anns distinct key_of (λ (k : Text × Text). k.0) (λ a. refl)

-- Each request of a protocol's own methods is answered by its position.
pub positions-Answers :
    {S : Type 0} (member : Text → Member S) (all : List (MethodImpl S)) (anns : List Announcement)
    (i : ℕ)
    → ((k : ℕ) (a : Announcement)
        → get_elem? anns k ≡ some a
        → get_elem? all (i + k) ≡ some (announced_impl member a))
    → Answers all (map key_of anns) (positions i (length anns))
unfolding positions announced_impl typed_method
positions-Answers member all [] i there = tt
positions-Answers member all (a ∷ anns) i there = (
  (i, announced_impl member a, refl, rw (n+0 i) at (there 0 a refl), refl, refl),
  positions-Answers member all anns (i + 1) λ k b at. rw (shift i k) at (there (suc k) b at),
)
  where
    n+0 : (i : ℕ) → i + 0 ≡ i
    n+0 i = omega arith

    shift : (i k : ℕ) → i + suc k ≡ (i + 1) + k
    shift i k = omega arith
