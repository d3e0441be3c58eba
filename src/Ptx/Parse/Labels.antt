-- ===== src/Ptx/Parse/Labels.antt =====
-- What `find_label` finds in a line.
use Prim.Native.String.{String, ◌++◌}
use Prim.Native.Char.{Char, code}
use mathlib.Core.Path.{subst}
use text.Mathlib.TextLemmas.{append_assoc, nil-append, cons-append}
use rouge_v.Base.{
  Bool, true, false, ◌&&◌, ◌||◌, Option, none, some, ◌==◌, ==_iff, ◌≡◌, refl, arith, sym, ap, ◌∙◌,
  if_elim, Bool-cases, inl, inr,
}
use rouge_v.Base.Chars.{is_empty}
use rouge_v.Ptx.Parse.{ident_start, ident_cont, Label, scan_label, find_label}

abbrev pub all_cont : String → Bool
all_cont String.[] = true
all_cont (String.◌∷◌ c s) = ident_cont c && all_cont s

-- An identifier: a letter, "_" or "$", and letters, digits, "_" and "$" behind it.
abbrev pub identifier : String → Bool
identifier String.[] = false
identifier (String.◌∷◌ c s) = ident_start c && all_cont s

-- A text is what stands before a label, the label, a colon, and what stands behind it.
pub record IsLabelOf (s : String) (l : Label) : Type 0 where
  pub colon : Char
  pub is_colon : code colon ≡ b':'
  pub whole : l.head ++ (l.label ++ String.◌∷◌ colon l.tail) ≡ s
  pub named : identifier l.label ≡ true

-- The answer is a label of the text, or there is none.
abbrev pub Answers : String → Option Label → Type 0
Answers s none = ¬ ((l : Label) × IsLabelOf s l)
Answers s (some l) = IsLabelOf s l

and_split : (a b : Bool) → (a && b) ≡ true → (a ≡ true) × (b ≡ true)
and_split a b e = ground arith

all_cont-append :
    (w : String) (c : Char)
    → all_cont w ≡ true
    → ident_cont c ≡ true
    → all_cont (w ++ String.◌∷◌ c String.[]) ≡ true
all_cont-append String.[] c a b = rw (nil-append (String.◌∷◌ c String.[])) (rw b refl)
all_cont-append (String.◌∷◌ d w) c a b =
    let parts = and_split (ident_cont d) (all_cont w) a in
    rw (cons-append d w (String.◌∷◌ c String.[])) (rw parts.0 (all_cont-append w c parts.1 b))

identifier-append :
    (w : String) (c : Char)
    → identifier w ≡ true
    → ident_cont c ≡ true
    → identifier (w ++ String.◌∷◌ c String.[]) ≡ true
identifier-append String.[] c a b = absurd (ground arith)
identifier-append (String.◌∷◌ d w) c a b =
    let parts = and_split (ident_start d) (all_cont w) a in
    rw (cons-append d w (String.◌∷◌ c String.[])) (rw parts.0 (all_cont-append w c parts.1 b))

append_middle :
    (w : String) (c : Char) (s : String) → (w ++ String.◌∷◌ c String.[]) ++ s ≡ w ++ String.◌∷◌ c s
append_middle w c s =
    append_assoc w (String.◌∷◌ c String.[]) s
    ∙ ap (λ t. w ++ t) (cons-append c String.[] s ∙ ap (String.◌∷◌ c) (nil-append s))

start_cont : (c : Char) → ident_start c ≡ true → ident_cont c ≡ true
unfolding ident_start ident_cont
start_cont c e = ground arith

colon_cont : (c : Char) → code c ≡ b':' → ident_cont c ≡ false
unfolding ident_cont
colon_cont c e = rw e refl

abbrev IfLabel : String → Option Label → Type 0
IfLabel s none = Unit {0}
IfLabel s (some l) = IsLabelOf s l

one_append : (c : Char) (s : String) → String.◌∷◌ c String.[] ++ s ≡ String.[] ++ String.◌∷◌ c s
one_append c s =
    cons-append c String.[] s
    ∙ (ap (String.◌∷◌ c) (nil-append s) ∙ sym (nil-append (String.◌∷◌ c s)))

pass_append : (head p q s : String) → p ++ s ≡ q → (head ++ p) ++ (String.[] ++ s) ≡ head ++ q
pass_append head p q s h =
    ap (λ t. (head ++ p) ++ t) (nil-append s) ∙ (append_assoc head p s ∙ ap (λ t. head ++ t) h)

-- The label that the scan finds is one of what is passed and what is left.
scan_label-IfLabel :
    (head word s : String)
    → (is_empty word || identifier word) ≡ true
    → IfLabel (head ++ (word ++ s)) (scan_label head word s)
unfolding scan_label
scan_label-IfLabel head word String.[] w = tt
scan_label-IfLabel head String.[] (String.◌∷◌ c s) w = elim (Bool-cases (ident_start c)) [
  | inl start ↦ rw start (
      subst (λ t. IfLabel (head ++ t) (scan_label head (String.◌∷◌ c String.[]) s)) (one_append c s)
        (scan_label-IfLabel head (String.◌∷◌ c String.[]) s (rw start refl)))
  | inr other ↦ rw other (
      subst (λ t. IfLabel t (scan_label (head ++ String.◌∷◌ c String.[]) String.[] s))
        (pass_append head (String.◌∷◌ c String.[]) (String.[] ++ String.◌∷◌ c s) s (one_append c s))
        (scan_label-IfLabel (head ++ String.◌∷◌ c String.[]) String.[] s refl))
]
scan_label-IfLabel head (String.◌∷◌ d word) (String.◌∷◌ c s) w =
    let word' = String.◌∷◌ d word ++ String.◌∷◌ c String.[] in
    let longer = append_middle (String.◌∷◌ d word) c s in
    elim (Bool-cases (ident_cont c)) [
      | inl cont ↦ rw cont (
          subst (λ t. IfLabel (head ++ t) (scan_label head word' s)) longer
            (scan_label-IfLabel head word' s
              (rw (identifier-append (String.◌∷◌ d word) c w cont) (ground arith))))
      | inr other ↦ elim (Bool-cases (code c == b':')) [
        | inl colon ↦ rw other (
            rw colon (record {
              colon = c;
              is_colon = (==_iff (code c) 58).0 colon;
              whole = refl;
              named = w;
            }))
        | inr more ↦ rw other (
            rw more (
              subst (λ t. IfLabel t (scan_label (head ++ word') String.[] s))
                (pass_append head word' (String.◌∷◌ d word ++ String.◌∷◌ c s) s longer)
                (scan_label-IfLabel (head ++ word') String.[] s refl)))
      ]
    ]

abbrev is_found : Option Label → Bool
is_found none = false
is_found (some l) = true

module _ (colon : Char) (tail : String) (is_colon : code colon ≡ b':') where
  end_found :
      (head : String) (d : Char) (word w : String)
      → all_cont w ≡ true
      → is_found (scan_label head (String.◌∷◌ d word) (w ++ String.◌∷◌ colon tail)) ≡ true
  unfolding scan_label
  end_found head d word String.[] all =
      rw (nil-append (String.◌∷◌ colon tail))
        (rw (colon_cont colon is_colon) (rw ((==_iff (code colon) b':').1 is_colon) refl))
  end_found head d word (String.◌∷◌ x w) all =
      let parts = and_split (ident_cont x) (all_cont w) all in
      rw (cons-append x w (String.◌∷◌ colon tail)) (
        rw parts.0 (
          rw (cons-append d word (String.◌∷◌ x String.[]))
            (end_found head d (word ++ String.◌∷◌ x String.[]) w parts.1)))

  identifier_found :
      (head word w : String)
      → identifier w ≡ true
      → is_found (scan_label head word (w ++ String.◌∷◌ colon tail)) ≡ true
  unfolding scan_label
  identifier_found head word String.[] named = absurd (ground arith)
  identifier_found head String.[] (String.◌∷◌ x w) named =
      let parts = and_split (ident_start x) (all_cont w) named in
      rw (cons-append x w (String.◌∷◌ colon tail))
        (rw parts.0 (end_found head x String.[] w parts.1))
  identifier_found head (String.◌∷◌ d word) (String.◌∷◌ x w) named =
      let parts = and_split (ident_start x) (all_cont w) named in
      end_found head d word (String.◌∷◌ x w) (rw (start_cont x parts.0) parts.1)

  scan_found :
      (head word before w : String)
      → identifier w ≡ true
      → is_found (scan_label head word (before ++ (w ++ String.◌∷◌ colon tail))) ≡ true
  unfolding scan_label
  scan_found head word String.[] w named =
      rw (nil-append (w ++ String.◌∷◌ colon tail)) (identifier_found head word w named)
  scan_found head String.[] (String.◌∷◌ y before) w named =
      rw (cons-append y before (w ++ String.◌∷◌ colon tail)) (
        if_elim (λ o. is_found o ≡ true) (ident_start y) _ _
          (scan_found head (String.◌∷◌ y String.[]) before w named)
          (scan_found (head ++ String.◌∷◌ y String.[]) String.[] before w named))
  scan_found head (String.◌∷◌ d word) (String.◌∷◌ y before) w named =
      let word' = String.◌∷◌ d word ++ String.◌∷◌ y String.[] in
      rw (cons-append y before (w ++ String.◌∷◌ colon tail)) (
        if_elim (λ o. is_found o ≡ true) (ident_cont y) _ _ (scan_found head word' before w named)
          (if_elim (λ o. is_found o ≡ true) (code y == b':') _ _ refl
            (scan_found (head ++ word') String.[] before w named)))

find_label-Answers : (s : String) (o : Option Label) → find_label s ≡ o → Answers s o
unfolding find_label
find_label-Answers s none e = λ (l, h).
    let found = scan_found h.colon l.tail h.is_colon String.[] String.[] l.head l.label h.named in
    let found' = subst (λ t. is_found (scan_label String.[] String.[] t) ≡ true) h.whole found in
    let same = sym (ap is_found e) ∙ found' in absurd (ground arith)
find_label-Answers s (some l) e =
    let found = scan_label-IfLabel String.[] String.[] s refl in
    let found' = subst (λ o. IfLabel (String.[] ++ (String.[] ++ s)) o) e found in
    subst (λ t. IsLabelOf t l) (nil-append (String.[] ++ s) ∙ nil-append s) found'

-- The label that `find_label` answers for a line is an identifier in front of a colon, and the
-- line is the text before it, the label, the colon and the text behind it; where it answers none,
-- no identifier of the line stands in front of a colon.
pub find_label_lem : (s : String) → Answers s (find_label s)
find_label_lem s = find_label-Answers s (find_label s) refl
