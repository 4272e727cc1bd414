-- ===== src/Wire/TypeString/Nodes.antt =====
-- What a text of a type is made of: a name, and arguments in angle brackets. A text can be taken
-- apart in one way only.
use smoljudge.Prelude.{
  ℕ, ◌≡◌, refl, sym, ap, ◌∙◌, Bool, true, false, ◌&&◌, ◌||◌, [], ◌∷◌, ◌++◌, append_assoc, leb, ◌==◌,
  arith,
}
use smoljudge.Prelude.Text.{Text}

mutual
  pub data Node : Type 0 where
    leaf : Text → Node
    branch : Text → Nodes → Node

  pub data Nodes : Type 0 where
    empty : Nodes
    arg : Node → Nodes → Nodes

unfoldable mutual
  pub render : Node → Text
  render (leaf name) = name
  render (branch name ns) = name ++ b'<' ∷ (render_args ns ++ b'>' ∷ [])

  -- The arguments, the first without a comma in front.
  pub render_args : Nodes → Text
  render_args empty = []
  render_args (arg n ns) = render n ++ render_more ns

  pub render_more : Nodes → Text
  render_more empty = []
  render_more (arg n ns) = b',' ∷ b' ' ∷ (render n ++ render_more ns)

unfoldable pub is_name_char : ℕ → Bool
is_name_char c = (leb b'a' c && leb c b'z') || ((leb b'0' c && leb c b'9') || (c == b'_'))

unfoldable pub every_name_char : Text → Bool
every_name_char [] = true
every_name_char (c ∷ s) = is_name_char c && every_name_char s

abbrev pub IsName : Text → Type 0
IsName [] = ⊥
IsName (c ∷ s) = every_name_char (c ∷ s) ≡ true

abbrev mutual
  pub IsNode : Node → Type 0
  IsNode (leaf name) = IsName name
  IsNode (branch name ns) = IsName name × AreNodes ns

  pub AreNodes : Nodes → Type 0
  AreNodes empty = Unit {0}
  AreNodes (arg n ns) = IsNode n × AreNodes ns

-- What can stand behind a name, and what can stand behind a type.
abbrev EndsName : Text → Type 0
EndsName [] = Unit {0}
EndsName (c ∷ r) = is_name_char c ≡ false

abbrev pub EndsType : Text → Type 0
EndsType [] = Unit {0}
EndsType (c ∷ r) = (is_name_char c ≡ false) × ((c == b'<') ≡ false)

EndsType-EndsName : (r : Text) → EndsType r → EndsName r
EndsType-EndsName [] h = tt
EndsType-EndsName (c ∷ r) h = h.0

name_inj :
    (n n' r r' : Text)
    → every_name_char n ≡ true
    → every_name_char n' ≡ true
    → EndsName r
    → EndsName r'
    → n ++ r ≡ n' ++ r'
    → (n ≡ n') × (r ≡ r')
unfolding every_name_char
name_inj [] [] r r' h h' b b' e = (refl, e)
name_inj [] (c' ∷ n') [] r' h h' b b' e = cc
name_inj [] (c' ∷ n') (c ∷ r) r' h h' b b' e = ground (arith, e)
name_inj (c ∷ n) [] r [] h h' b b' e = cc
name_inj (c ∷ n) [] r (c' ∷ r') h h' b b' e = ground (arith, e)
name_inj (c ∷ n) (c' ∷ n') r r' h h' b b' e = ground (arith, e, name_inj n n' r r')

IsName-every : (n : Text) → IsName n → every_name_char n ≡ true
IsName-every [] h = elim h [ ]
IsName-every (c ∷ n) h = h

-- A name is not what stands behind one.
name_not_end :
    (n s : Text) (c : ℕ) (r : Text) → IsName n → is_name_char c ≡ false → n ++ s ≡ c ∷ r → ⊥
unfolding every_name_char
name_not_end [] s c r h b e = elim h [ ]
name_not_end (x ∷ n) s c r h b e = ground (arith, e)

render_not_end :
    (n : Node) (s : Text) (c : ℕ) (r : Text)
    → IsNode n
    → is_name_char c ≡ false
    → render n ++ s ≡ c ∷ r
    → ⊥
unfolding render
render_not_end (leaf name) s c r h b e = name_not_end name s c r h b e
render_not_end (branch name ns) s c r h b e =
    name_not_end name ((b'<' ∷ (render_args ns ++ b'>' ∷ [])) ++ s) c r h.0 b
      (sym (append_assoc name (b'<' ∷ (render_args ns ++ b'>' ∷ [])) s) ∙ e)

render-branch :
    (name : Text) (ns : Nodes) (r : Text)
    → render (branch name ns) ++ r ≡ name ++ b'<' ∷ (render_args ns ++ b'>' ∷ r)
unfolding render
render-branch name ns r = rw (append_assoc, append_assoc)

-- The brackets that close a list of arguments.
abbrev pub Closes : ℕ → Type 0
Closes c = (is_name_char c ≡ false) × ((c == b'<') ≡ false) × ((c == b',') ≡ false)

more-EndsType : (ns : Nodes) (c : ℕ) (r : Text) → Closes c → EndsType (render_more ns ++ c ∷ r)
unfolding render is_name_char
more-EndsType empty c r (a, b, _) = (a, b)
more-EndsType (arg n ns) c r h = (refl, refl)

leaf_branch : (a b r s : Text) → IsName a → IsName b → EndsType r → a ++ r ≡ b ++ b'<' ∷ s → ⊥
unfolding is_name_char
leaf_branch a b [] s h h' f e =
    let (same, rest) =
      name_inj a b [] (b'<' ∷ s) (IsName-every a h) (IsName-every b h') tt refl e in
    cc
leaf_branch a b (c ∷ r) s h h' f e =
    let (same, rest) =
      name_inj a b (c ∷ r) (b'<' ∷ s) (IsName-every a h) (IsName-every b h') f.0 refl e in
    ground (arith, rest, f.1)

comma_no_close : (c : ℕ) (r s : Text) → Closes c → c ∷ r ≡ b',' ∷ s → ⊥
comma_no_close c r s k e = ground (arith, e, k)

abbrev tail : Text → Text
tail [] = []
tail (c ∷ s) = s

mutual
  unfolding render is_name_char

  pub render_inj :
      (n n' : Node) (r r' : Text)
      → IsNode n
      → IsNode n'
      → EndsType r
      → EndsType r'
      → render n ++ r ≡ render n' ++ r'
      → (n ≡ n') × (r ≡ r')
  render_inj (leaf a) (leaf a') r r' h h' f f' e =
      let (same, rest) =
        name_inj a a' r r' (IsName-every a h) (IsName-every a' h') (EndsType-EndsName r f)
          (EndsType-EndsName r' f') e in
      (ap leaf same, rest)
  render_inj (leaf a) (branch b ns) r r' h h' f f' e =
      absurd (leaf_branch a b r (render_args ns ++ b'>' ∷ r') h h'.0 f (e ∙ render-branch b ns r'))
  render_inj (branch b ns) (leaf a) r r' h h' f f' e =
      absurd
        (leaf_branch a b r' (render_args ns ++ b'>' ∷ r) h' h.0 f' (sym e ∙ render-branch b ns r))
  render_inj (branch b ns) (branch b' ns') r r' (h, hs) (h', hs') f f' e =
      let (same, rest) =
        name_inj b b' (b'<' ∷ (render_args ns ++ b'>' ∷ r)) (b'<' ∷ (render_args ns' ++ b'>' ∷ r'))
          (IsName-every b h) (IsName-every b' h') refl refl
          (sym (render-branch b ns r) ∙ e ∙ render-branch b' ns' r') in
      let (args, behind) = args_inj ns ns' b'>' r r' hs hs' (refl, refl, refl) (cc) in (cc, behind)

  pub args_inj :
      (ns ns' : Nodes) (c : ℕ) (r r' : Text)
      → AreNodes ns
      → AreNodes ns'
      → Closes c
      → render_args ns ++ c ∷ r ≡ render_args ns' ++ c ∷ r'
      → (ns ≡ ns') × (r ≡ r')
  args_inj empty empty c r r' h h' k e = (refl, cc)
  args_inj empty (arg n' ns') c r r' h h' k e = absurd (
      render_not_end n' (render_more ns' ++ c ∷ r') c r h'.0 k.0
        (sym (append_assoc (render n') (render_more ns') (c ∷ r')) ∙ sym e))
  args_inj (arg n ns) empty c r r' h h' k e = absurd (
      render_not_end n (render_more ns ++ c ∷ r) c r' h.0 k.0
        (sym (append_assoc (render n) (render_more ns) (c ∷ r)) ∙ e))
  args_inj (arg n ns) (arg n' ns') c r r' (h, hs) (h', hs') k e =
      let (first, rest) =
        render_inj n n' (render_more ns ++ c ∷ r) (render_more ns' ++ c ∷ r') h h'
          (more-EndsType ns c r k) (more-EndsType ns' c r' k)
          (sym (append_assoc (render n) (render_more ns) (c ∷ r))
            ∙ e
            ∙ append_assoc (render n') (render_more ns') (c ∷ r')) in
      let (others, behind) = more_inj ns ns' c r r' hs hs' k rest in (cc, behind)

  pub more_inj :
      (ns ns' : Nodes) (c : ℕ) (r r' : Text)
      → AreNodes ns
      → AreNodes ns'
      → Closes c
      → render_more ns ++ c ∷ r ≡ render_more ns' ++ c ∷ r'
      → (ns ≡ ns') × (r ≡ r')
  more_inj empty empty c r r' h h' k e = (refl, cc)
  more_inj empty (arg n' ns') c r r' h h' k e = absurd (comma_no_close c r _ k e)
  more_inj (arg n ns) empty c r r' h h' k e = absurd (comma_no_close c r' _ k (sym e))
  more_inj (arg n ns) (arg n' ns') c r r' (h, hs) (h', hs') k e =
      let (first, rest) =
        render_inj n n' (render_more ns ++ c ∷ r) (render_more ns' ++ c ∷ r') h h'
          (more-EndsType ns c r k) (more-EndsType ns' c r' k)
          (sym (append_assoc (render n) (render_more ns) (c ∷ r))
            ∙ ap tail (ap tail e)
            ∙ append_assoc (render n') (render_more ns') (c ∷ r')) in
      let (others, behind) = more_inj ns ns' c r r' hs hs' k rest in (cc, behind)
