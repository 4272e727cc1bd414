-- ===== src/Rpc/Protocol/Numbers.antt =====
-- Ids that are the places of announcements in their protocol.
use smoljudge.Prelude.{ℕ, zero, suc, ◌≡◌, ap, ◌∙◌, subst, List, [], ◌∷◌, map, get_elem?, some, All}
use smoljudge.Prelude.Dict.{Dict, lookup, text_eq}
use smoljudge.Prelude.Int.{ℤ, pos}
use smoljudge.Prelude.Text.{Text}
use smoljudge.Rpc.Server.Clients.{Provided}
use smoljudge.Rpc.Client.{PendingMessage}
use smoljudge.Rpc.Client.Greeting.{IsKnown}
use smoljudge.Rpc.Protocol.{Announcement}
use smoljudge.Rpc.Protocol.Lists.{
  DistinctAnnouncements, method_of, key_of, get_elem?-map, get_elem?-map_back,
}
use mathlib.Core.Option.{some-injective}

All-get_elem? :
    {A : Type 0} (P : A → Type 0) (xs : List A) (k : ℕ) (x : A)
    → get_elem? xs k ≡ some x
    → All P xs
    → P x
All-get_elem? P [] k x at all = cc
All-get_elem? P (y ∷ xs) zero x at (one, all) = subst P (some-injective y x at) one
All-get_elem? P (y ∷ xs) (suc k) x at (one, all) = All-get_elem? P xs k x at all

-- Where the names of all members are distinct, an id is the position of the announcement.
abbrev pub IsNumbered : List Announcement → Dict Text ℤ → Type 0
IsNumbered anns ids =
    (k : ℕ) (a : Announcement) → get_elem? anns k ≡ some a → lookup a.method_name ids ≡ some (pos k)

pub Provided-IsNumbered :
    (anns : List Announcement) (ids : Dict Text ℤ)
    → DistinctAnnouncements anns
    → All (Provided (map key_of anns) ids) (map method_of anns)
    → IsNumbered anns ids
Provided-IsNumbered anns ids distinct provided k a at =
    let m = method_of a in
    let (i, found, there) =
      All-get_elem? (Provided (map key_of anns) ids) (map method_of anns) k m
        (get_elem?-map method_of anns k a at) provided in
    let (b, here, same) = get_elem?-map_back key_of anns i (m.name, m.signature) there in
    found
    ∙ ap (λ n. some (pos n)) (distinct i k b a here at (ap (λ (key : Text × Text). key.0) same))

-- A call of a method of the protocol.
abbrev pub IsAnnounced : List Announcement → PendingMessage → Type 0
IsAnnounced anns m =
    (k : ℕ) × (a : Announcement) × (get_elem? anns k ≡ some a) × (a.method_name ≡ m.method_name)

-- Then all calls that wait are of methods with ids.
pub IsNumbered-All :
    (anns : List Announcement) (ids : Dict Text ℤ) (ms : List PendingMessage)
    → IsNumbered anns ids
    → All (IsAnnounced anns) ms
    → All (IsKnown ids) ms
IsNumbered-All anns ids [] numbered h = tt
IsNumbered-All anns ids (m ∷ ms) numbered ((k, a, at, same), h) = (
  (pos k, subst (λ name. lookup name ids ≡ some (pos k)) same (numbered k a at)),
  IsNumbered-All anns ids ms numbered h,
)
