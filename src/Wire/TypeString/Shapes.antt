-- ===== src/Wire/TypeString/Shapes.antt =====
-- The text of a type as a name with arguments.
use smoljudge.Prelude.{
  ℕ, ◌*◌, ◌≡◌, refl, sym, ap, subst, ◌∙◌, true, ◌&&◌, [], ◌∷◌, ◌++◌, append_assoc, append-nil, All,
  arith,
}
use smoljudge.Prelude.Text.{Text, codes}
use smoljudge.Prelude.Decimal.{to_string, is_digit, to_string_first, to_string-All}
use smoljudge.Wire.Types.{
  Ty, Tys, uint, int, bool, byte, string, vector, variant, tuple, pair, array, optional, nil, cons,
}
use smoljudge.Wire.TypeString.{join_more, join_strings, comma, type_string, type_strings}
use smoljudge.Wire.TypeString.Nodes.{
  Node, Nodes, leaf, branch, empty, arg, render, render_args, render_more, is_name_char,
  every_name_char, IsName, IsNode, AreNodes,
}

abbrev pub integral : Text → ℕ → Text
integral kind w = (kind ++ to_string (w * 8)) ++ codes "_t"

abbrev mutual
  pub node_of : Ty → Node
  node_of (uint w) = leaf (integral (codes "uint") w)
  node_of (int w) = leaf (integral (codes "int") w)
  node_of bool = leaf (integral (codes "uint") 1)
  node_of byte = leaf (codes "byte")
  node_of string = leaf (codes "string")
  node_of (vector t) = branch (codes "vector") (arg (node_of t) empty)
  node_of (variant ts) = branch (codes "variant") (nodes_of ts)
  node_of (tuple ts) = branch (codes "tuple") (nodes_of ts)
  node_of (pair a b) = branch (codes "pair") (arg (node_of a) (arg (node_of b) empty))
  node_of (array t n) = branch (codes "array") (arg (node_of t) (arg (leaf (to_string n)) empty))
  node_of (optional t) = branch (codes "optional") (arg (node_of t) empty)

  pub nodes_of : Tys → Nodes
  nodes_of nil = empty
  nodes_of (cons t ts) = arg (node_of t) (nodes_of ts)

two_args :
    (a b : Text) → (a ++ b',' ∷ b' ' ∷ (b ++ [])) ++ b'>' ∷ [] ≡ ((a ++ comma) ++ b) ++ b'>' ∷ []
two_args a b = rw (append-nil b) (ap (λ s. s ++ b'>' ∷ []) (sym (append_assoc a comma b)))

mutual
  unfolding type_string join_strings join_more render

  pub render-node_of : (t : Ty) → render (node_of t) ≡ type_string t
  render-node_of (uint w) = refl
  render-node_of (int w) = refl
  render-node_of bool = refl
  render-node_of byte = refl
  render-node_of string = refl
  render-node_of (vector t) = rw (render-node_of t, append-nil (type_string t))
  render-node_of (variant ts) = rw (render-nodes_of ts)
  render-node_of (tuple ts) = rw (render-nodes_of ts)
  render-node_of (pair a b) =
      rw (render-node_of a, render-node_of b)
        (ap (λ s. codes "pair<" ++ s) (two_args (type_string a) (type_string b)))
  render-node_of (array t n) =
      rw (render-node_of t) (ap (λ s. codes "array<" ++ s) (two_args (type_string t) (to_string n)))
  render-node_of (optional t) = rw (render-node_of t, append-nil (type_string t))

  pub render-nodes_of :
      (ts : Tys) → render_args (nodes_of ts) ≡ join_strings comma (type_strings ts)
  render-nodes_of nil = refl
  render-nodes_of (cons t ts) =
      ap (λ s. s ++ render_more (nodes_of ts)) (render-node_of t)
      ∙ render_more-nodes_of (type_string t) ts

  render_more-nodes_of :
      (result : Text) (ts : Tys)
      → result ++ render_more (nodes_of ts) ≡ join_more comma result (type_strings ts)
  render_more-nodes_of result nil = append-nil result
  render_more-nodes_of result (cons t ts) = rw (render-node_of t) (
      sym (append_assoc result comma (type_string t ++ render_more (nodes_of ts)))
      ∙ sym (append_assoc (result ++ comma) (type_string t) (render_more (nodes_of ts)))
      ∙ render_more-nodes_of ((result ++ comma) ++ type_string t) ts)

every-append : (a b : Text) → every_name_char (a ++ b) ≡ (every_name_char a && every_name_char b)
unfolding every_name_char
every-append [] b = refl
every-append (c ∷ a) b = ground (arith, every-append a b)

digits-every : (s : Text) → All (λ c. is_digit c ≡ true) s → every_name_char s ≡ true
unfolding every_name_char is_name_char is_digit
digits-every [] h = refl
digits-every (c ∷ s) (d, h) = ground (arith, d, digits-every s h)

pub to_string-IsName : (n : ℕ) → IsName (to_string n)
to_string-IsName n =
    let (c, s, e, d) = to_string_first n in
    subst IsName (sym e)
      (subst (λ x. every_name_char x ≡ true) e (digits-every (to_string n) (to_string-All n)))

integral-every :
    (w : ℕ) (kind : Text) → every_name_char kind ≡ true → every_name_char (integral kind w) ≡ true
unfolding every_name_char is_name_char
integral-every w kind h = rw (
  every-append (kind ++ to_string (w * 8)) (codes "_t"),
  every-append kind (to_string (w * 8)),
  h,
  digits-every (to_string (w * 8)) (to_string-All (w * 8)),
)

mutual
  unfolding every_name_char is_name_char

  pub node_of-IsNode : (t : Ty) → IsNode (node_of t)
  node_of-IsNode (uint w) = integral-every w (codes "uint") refl
  node_of-IsNode (int w) = integral-every w (codes "int") refl
  node_of-IsNode bool = integral-every 1 (codes "uint") refl
  node_of-IsNode byte = refl
  node_of-IsNode string = refl
  node_of-IsNode (vector t) = (refl, (node_of-IsNode t, tt))
  node_of-IsNode (variant ts) = (refl, nodes_of-AreNodes ts)
  node_of-IsNode (tuple ts) = (refl, nodes_of-AreNodes ts)
  node_of-IsNode (pair a b) = (refl, (node_of-IsNode a, (node_of-IsNode b, tt)))
  node_of-IsNode (array t n) = (refl, (node_of-IsNode t, (to_string-IsName n, tt)))
  node_of-IsNode (optional t) = (refl, (node_of-IsNode t, tt))

  pub nodes_of-AreNodes : (ts : Tys) → AreNodes (nodes_of ts)
  nodes_of-AreNodes nil = tt
  nodes_of-AreNodes (cons t ts) = (node_of-IsNode t, nodes_of-AreNodes ts)
