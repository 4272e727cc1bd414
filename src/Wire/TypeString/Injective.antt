-- ===== src/Wire/TypeString/Injective.antt =====
-- What a signature tells of the types in it.
use smoljudge.Prelude.{◌≡◌, refl, sym, ap, ◌∙◌, [], ◌∷◌, ◌++◌, append_assoc, Option, none, some}
use smoljudge.Prelude.Text.{codes}
use smoljudge.Wire.Types.{Ty, Tys}
use smoljudge.Wire.TypeString.{return_string, signature_string}
use smoljudge.Wire.TypeString.Nodes.{
  Node, leaf, render, render_args, IsNode, render_inj, args_inj, is_name_char, every_name_char,
}
use smoljudge.Wire.TypeString.Shapes.{
  node_of, nodes_of, render-node_of, render-nodes_of, node_of-IsNode, nodes_of-AreNodes,
}
use smoljudge.Wire.TypeString.Reading.{
  visible, all_visible, read_node, read_nodes, items_of, to_tys, read_void, read_node-node_of,
  read_nodes-nodes_of, to_tys-items_of,
}

same_visible : (t t' : Ty) → node_of t ≡ node_of t' → visible t ≡ visible t'
same_visible t t' e =
    let both = sym (read_node-node_of t) ∙ ap read_node e ∙ read_node-node_of t' in cc

all_same_visible : (ts ts' : Tys) → nodes_of ts ≡ nodes_of ts' → all_visible ts ≡ all_visible ts'
all_same_visible ts ts' e =
    let items = sym (read_nodes-nodes_of ts) ∙ ap read_nodes e ∙ read_nodes-nodes_of ts' in
    let same : items_of (all_visible ts) ≡ items_of (all_visible ts') = cc in
    let both =
      sym (to_tys-items_of (all_visible ts)) ∙ ap to_tys same ∙ to_tys-items_of (all_visible ts') in
    cc

-- The result of a method, as far as its text tells.
abbrev pub visible_result : Option Ty → Option Ty
visible_result none = none
visible_result (some t) = some (visible t)

abbrev result_node : Option Ty → Node
result_node none = leaf (codes "void")
result_node (some t) = node_of t

result_node-IsNode : (ret : Option Ty) → IsNode (result_node ret)
unfolding every_name_char is_name_char
result_node-IsNode none = refl
result_node-IsNode (some t) = node_of-IsNode t

render-result_node : (ret : Option Ty) → render (result_node ret) ≡ return_string ret
unfolding render return_string
render-result_node none = refl
render-result_node (some t) = render-node_of t

signature-render :
    (ret : Option Ty) (args : Tys)
    → signature_string ret args
      ≡ render (result_node ret) ++ b'(' ∷ (render_args (nodes_of args) ++ b')' ∷ [])
unfolding signature_string
signature-render ret args =
    rw (render-result_node ret, render-nodes_of args, append_assoc, append_assoc)

not_void : (t : Ty) → leaf (codes "void") ≡ node_of t → ⊥
not_void t e = let both = sym read_void ∙ ap read_node e ∙ read_node-node_of t in cc

same_result :
    (ret ret' : Option Ty)
    → result_node ret ≡ result_node ret'
    → visible_result ret ≡ visible_result ret'
same_result none none e = refl
same_result none (some t) e = absurd (not_void t e)
same_result (some t) none e = absurd (not_void t (sym e))
same_result (some t) (some t') e = ap some (same_visible t t' e)

-- Two functions have one signature only if they have the same result and the same arguments, up to
-- `bool` and `uint8_t`, which have one text.
pub signature_string_injective :
    (ret ret' : Option Ty) (args args' : Tys)
    → signature_string ret args ≡ signature_string ret' args'
    → (visible_result ret ≡ visible_result ret') × (all_visible args ≡ all_visible args')
unfolding is_name_char
signature_string_injective ret ret' args args' e =
    let rest = λ (ts : Tys). render_args (nodes_of ts) ++ b')' ∷ [] in
    let (results, behind) =
      render_inj (result_node ret) (result_node ret') (b'(' ∷ rest args) (b'(' ∷ rest args')
        (result_node-IsNode ret) (result_node-IsNode ret') (refl, refl) (refl, refl)
        (sym (signature-render ret args) ∙ e ∙ signature-render ret' args') in
    let (arguments, _) =
      args_inj (nodes_of args) (nodes_of args') b')' [] [] (nodes_of-AreNodes args)
        (nodes_of-AreNodes args') (refl, refl, refl) (cc) in
    (same_result ret ret' results, all_same_visible args args' arguments)
