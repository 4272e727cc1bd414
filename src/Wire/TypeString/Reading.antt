-- ===== src/Wire/TypeString/Reading.antt =====
-- Reading a type back from its name and arguments.
use smoljudge.Prelude.{
  ℕ, ◌*◌, ◌/◌, ◌≡◌, refl, sym, ap, ◌∙◌, true, List, [], ◌∷◌, ◌++◌, append-nil, drop, bytes_eq, ◌==◌,
  if◌then◌else◌, Option, none, some, arith,
}
use smoljudge.Prelude.Text.{Text, codes}
use smoljudge.Prelude.Decimal.{
  to_string, is_digit, read_digits, read_digits-to_string, to_string_first,
}
use smoljudge.Wire.Types.{
  Ty, Tys, uint, int, bool, byte, string, vector, variant, tuple, pair, array, optional, nil, cons,
}
use smoljudge.Wire.TypeString.Nodes.{Node, Nodes, leaf, branch, empty, arg}
use smoljudge.Wire.TypeString.Shapes.{node_of, nodes_of}

-- A type as far as its text tells: `bool` and `uint8_t` have one text.
unfoldable mutual
  pub visible : Ty → Ty
  visible (uint w) = uint w
  visible (int w) = int w
  visible bool = uint 1
  visible byte = byte
  visible string = string
  visible (vector t) = vector (visible t)
  visible (variant ts) = variant (all_visible ts)
  visible (tuple ts) = tuple (all_visible ts)
  visible (pair a b) = pair (visible a) (visible b)
  visible (array t n) = array (visible t) n
  visible (optional t) = optional (visible t)

  pub all_visible : Tys → Tys
  all_visible nil = nil
  all_visible (cons t ts) = cons (visible t) (all_visible ts)

-- Reading a name with arguments as a type, or as the size of an array.
pub data Item : Type 0 where
  a_type : Ty → Item
  a_size : ℕ → Item

width : Text → ℕ
width digits = (read_digits 0 digits).0 / 8

pub read_leaf : Text → Option Item
unfolding width
read_leaf [] = none
read_leaf (c ∷ s) =
    if is_digit c
    then some (a_size (read_digits 0 (c ∷ s)).0)
    else if bytes_eq (c ∷ s) (codes "byte")
    then some (a_type byte)
    else if bytes_eq (c ∷ s) (codes "string")
    then some (a_type string)
    else if c == b'u'
    then some (a_type (uint (width (drop 3 s))))
    else if c == b'i'
    then some (a_type (int (width (drop 2 s))))
    else none

pub to_tys : List Item → Option Tys
to_tys [] = some nil
to_tys (a_size n ∷ items) = none
to_tys (a_type t ∷ items) = elim (to_tys items) [ none ↦ none | some ts ↦ some (cons t ts) ]

one_type : (Ty → Ty) → List Item → Option Item
one_type make (a_type t ∷ []) = some (a_type (make t))
one_type make other = none

pair_of : List Item → Option Item
pair_of (a_type a ∷ a_type b ∷ []) = some (a_type (pair a b))
pair_of other = none

array_of : List Item → Option Item
array_of (a_type t ∷ a_size n ∷ []) = some (a_type (array t n))
array_of other = none

many : (Tys → Ty) → Option Tys → Option Item
many make none = none
many make (some ts) = some (a_type (make ts))

read_branch : Text → List Item → Option Item
unfolding to_tys one_type pair_of array_of many
read_branch name items =
    if bytes_eq name (codes "vector")
    then one_type vector items
    else if bytes_eq name (codes "optional")
    then one_type optional items
    else if bytes_eq name (codes "variant")
    then many variant (to_tys items)
    else if bytes_eq name (codes "tuple")
    then many tuple (to_tys items)
    else if bytes_eq name (codes "pair")
    then pair_of items
    else array_of items

with_items : Text → Option (List Item) → Option Item
unfolding read_branch
with_items name none = none
with_items name (some items) = read_branch name items

put_first : Option Item → Option (List Item) → Option (List Item)
put_first none others = none
put_first (some i) none = none
put_first (some i) (some is) = some (i ∷ is)

mutual
  pub read_node : Node → Option Item
  read_node (leaf name) = read_leaf name
  read_node (branch name ns) = with_items name (read_nodes ns)

  pub read_nodes : Nodes → Option (List Item)
  read_nodes empty = some []
  read_nodes (arg n ns) = put_first (read_node n) (read_nodes ns)

pub items_of : Tys → List Item
items_of nil = []
items_of (cons t ts) = a_type t ∷ items_of ts

pub to_tys-items_of : (ts : Tys) → to_tys (items_of ts) ≡ some ts
unfolding to_tys items_of
to_tys-items_of nil = refl
to_tys-items_of (cons t ts) = rw (to_tys-items_of ts)

width-to_string : (w : ℕ) → width (to_string (w * 8) ++ codes "_t") ≡ w
unfolding width read_digits is_digit
width-to_string w = rw (read_digits-to_string (w * 8) (codes "_t")) (omega arith)

read_leaf_digit :
    (c : ℕ) (s : Text)
    → is_digit c ≡ true
    → read_leaf (c ∷ s) ≡ some (a_size (read_digits 0 (c ∷ s)).0)
unfolding read_leaf
read_leaf_digit c s d = rw d

read_leaf-to_string : (n : ℕ) → read_leaf (to_string n) ≡ some (a_size n)
unfolding read_digits
read_leaf-to_string n =
    let (c, s, e, d) = to_string_first n in
    let size = λ (x : Text). some (a_size (read_digits 0 x).0) in
    ap read_leaf e
    ∙ read_leaf_digit c s d
    ∙ ap size (sym e)
    ∙ ap size (sym (append-nil (to_string n)))
    ∙ ap (λ r. some (a_size r.0)) (read_digits-to_string n [])

mutual
  unfolding read_node visible read_leaf with_items put_first items_of bytes_eq is_digit

  pub read_node-node_of : (t : Ty) → read_node (node_of t) ≡ some (a_type (visible t))
  read_node-node_of (uint w) = ap (λ n. some (a_type (uint n))) (width-to_string w)
  read_node-node_of (int w) = ap (λ n. some (a_type (int n))) (width-to_string w)
  read_node-node_of bool = ap (λ n. some (a_type (uint n))) (width-to_string 1)
  read_node-node_of byte = refl
  read_node-node_of string = refl
  read_node-node_of (vector t) = rw (read_node-node_of t)
  read_node-node_of (variant ts) = rw (read_nodes-nodes_of ts, to_tys-items_of (all_visible ts))
  read_node-node_of (tuple ts) = rw (read_nodes-nodes_of ts, to_tys-items_of (all_visible ts))
  read_node-node_of (pair a b) = rw (read_node-node_of a, read_node-node_of b)
  read_node-node_of (array t n) = rw (read_node-node_of t, read_leaf-to_string n)
  read_node-node_of (optional t) = rw (read_node-node_of t)

  pub read_nodes-nodes_of : (ts : Tys) → read_nodes (nodes_of ts) ≡ some (items_of (all_visible ts))
  read_nodes-nodes_of nil = refl
  read_nodes-nodes_of (cons t ts) = rw (read_node-node_of t, read_nodes-nodes_of ts)

-- `void` is the text of no type that has values.
pub read_void : read_node (leaf (codes "void")) ≡ none
unfolding read_node read_leaf bytes_eq is_digit
read_void = refl
