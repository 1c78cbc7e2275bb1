-- ===== src/NarInfo/Lines.antt =====
-- src/protocol/narinfo.ts: splitting a text into lines, and what the loop over them collects.
use nixstr_cache.Prelude.{
  ℕ, ◌≡◌, refl, sym, ap, subst, ◌∙◌, false, Option, List, [], ◌∷◌, ◌++◌, map, arith, append_assoc,
  append-nil, All, All-append, Text, has_char, split_from, cut_pair, ◌⊎◌, inl, inr,
}
use nixstr_cache.Prelude.Result.{ok, ◌>>=◌, require, >>=-eq-ok, Result-cases}
use nixstr_cache.NarInfo.{
  malformed_line, Signature, Line, sig, scalar, Collected, parse_sig, parse_line, add_line, collect,
}
use nixstr_cache.NarInfo.Ops.{appended}

abbrev pub Lacks : ℕ → Text → Type 0
Lacks c s = has_char c s ≡ false

pub Lacks-append : (c : ℕ) (s t : Text) → Lacks c s → Lacks c t → Lacks c (s ++ t)
unfolding has_char
Lacks-append c [] t h k = k
Lacks-append c (x ∷ s) t h k = ground (arith, Lacks-append c s t)

pub Lacks-left : (c : ℕ) (s t : Text) → Lacks c (s ++ t) → Lacks c s
unfolding has_char
Lacks-left c [] t h = refl
Lacks-left c (x ∷ s) t h = ground (arith, Lacks-left c s t)

-- No part holds the separator, nor a character that the text lacks.
pub split_from-Lacks :
    (c d : ℕ) (cur s : Text)
    → Lacks d cur
    → (c ≡ d) ⊎ Lacks d s
    → All (Lacks d) (split_from c cur s)
unfolding split_from has_char
split_from-Lacks c d cur [] h k = (h, tt)
split_from-Lacks c d cur (x ∷ s) h k = ground (
  arith,
  Lacks-append d cur (x ∷ []),
  split_from-Lacks c d [] s refl,
  split_from-Lacks c d (cur ++ x ∷ []) s,
)

split_from_word :
    (c : ℕ) (ls : List Text) (rest : Text)
    → ((cur : Text) → split_from c cur rest ≡ cur ∷ ls)
    → (l cur : Text) → Lacks c l
    → split_from c cur (l ++ rest) ≡ (cur ++ l) ∷ ls
unfolding split_from has_char
split_from_word c ls rest ih [] cur h = ih cur ∙ ap (λ t. t ∷ ls) (sym (append-nil cur))
split_from_word c ls rest ih (x ∷ l) cur h =
    ground (arith, split_from_word c ls rest ih l (cur ++ x ∷ []), append_assoc cur (x ∷ []) l)

split_from-appended :
    (ls : List Text) (cur : Text) → All (Lacks 10) ls → split_from 10 cur (appended ls) ≡ cur ∷ ls
unfolding split_from appended
split_from-appended [] cur h = refl
split_from-appended (l ∷ ls) cur (p, h) =
    ap (◌∷◌ cur)
      (split_from_word 10 ls (appended ls) (λ cur'. split_from-appended ls cur' h) l [] p)

-- Lines that are appended to a text are its last lines.
pub split-append :
    (s : Text) (cur : Text) (ls : List Text)
    → All (Lacks 10) ls
    → split_from 10 cur (s ++ appended ls) ≡ split_from 10 cur s ++ ls
unfolding split_from
split-append [] cur ls h = split_from-appended ls cur h
split-append (x ∷ s) cur ls h =
    ground (arith, split-append s [] ls h, split-append s (cur ++ x ∷ []) ls h)

module _ (atob : Text → Option (List ℕ)) (btoa : List ℕ → Text) where
  pub collect-append :
      (c : Collected) (xs ys : List Text)
      → collect atob btoa c (xs ++ ys) ≡ (collect atob btoa c xs >>= λ c'. collect atob btoa c' ys)
  unfolding collect
  collect-append c [] ys = refl
  collect-append c (x ∷ xs) ys = elim (Result-cases (parse_line atob btoa x)) [
    | inl (l, e) ↦ rw e (elim (Result-cases (add_line atob btoa c l)) [
      | inl (c', f) ↦ rw f (collect-append c' xs ys)
      | inr (x', f) ↦ rw f
    ])
    | inr (x', e) ↦ rw e
  ]

  -- A signature that its line gives back.
  pub record IsSigLine (s : Signature) : Type 0 where
    pub again : parse_line atob btoa s.raw_line ≡ ok (sig s)
    pub one_line : Lacks 10 s.raw_line
    pub no_return : Lacks 13 s.raw_line
    pub no_null : Lacks 0 s.raw_line

  pub collect_sigs :
      (c : Collected) (ss : List Signature)
      → All IsSigLine ss
      → collect atob btoa c (map (λ (s : Signature). s.raw_line) ss)
        ≡ ok (record c { signatures = c.signatures ++ ss })
  unfolding collect add_line
  collect_sigs c [] h = ap (λ t. ok (record c { signatures = t })) (sym (append-nil c.signatures))
  collect_sigs c (s ∷ ss) (p, h) = rw (p.again) (
      collect_sigs (record c { signatures = c.signatures ++ s ∷ [] }) ss h
      ∙ ap (λ t. ok (record c { signatures = t })) (append_assoc c.signatures (s ∷ []) ss))

  parse_sig_raw :
      (line value : Text) (s : Signature)
      → parse_sig atob btoa line value ≡ ok s
      → s.raw_line ≡ line
  unfolding parse_sig
  parse_sig_raw line value s h = ground arith

  parse_line_raw :
      (line : Text) (s : Signature) → parse_line atob btoa line ≡ ok (sig s) → s.raw_line ≡ line
  unfolding parse_line
  parse_line_raw line s h =
      let (parts, _, e) = >>=-eq-ok (require (cut_pair b':' b' ' line) malformed_line) _ h in
      ground (arith, parse_sig_raw line (parts.1) s)

  line-IsSigLine :
      (line : Text) (s : Signature)
      → parse_line atob btoa line ≡ ok (sig s)
      → Lacks 10 line
      → Lacks 13 line
      → Lacks 0 line
      → IsSigLine s
  line-IsSigLine line s h p q r =
      let e = parse_line_raw line s h in
      record {
        again = subst (λ t. parse_line atob btoa t ≡ ok (sig s)) (sym e) h;
        one_line = rw e p;
        no_return = rw e q;
        no_null = rw e r;
      }

  add_line-All_sig :
      (c c' : Collected) (line : Text) (l : Line)
      → parse_line atob btoa line ≡ ok l
      → Lacks 10 line
      → Lacks 13 line
      → Lacks 0 line
      → add_line atob btoa c l ≡ ok c'
      → All IsSigLine c.signatures
      → All IsSigLine c'.signatures
  unfolding add_line
  add_line-All_sig c c' line (sig s) e p q r f a =
      let kept = All-append IsSigLine c.signatures (s ∷ []) a (line-IsSigLine line s e p q r, tt) in
      ground (arith, kept)
  add_line-All_sig c c' line (scalar k v) e p q r f a = ground arith

  pub collect-All_sig :
      (c c' : Collected) (lines : List Text)
      → All (Lacks 10) lines
      → All (Lacks 13) lines
      → All (Lacks 0) lines
      → All IsSigLine c.signatures
      → collect atob btoa c lines ≡ ok c'
      → All IsSigLine c'.signatures
  unfolding collect
  collect-All_sig c c' [] h j k a e = ground arith
  collect-All_sig c c' (l ∷ ls) (p, h) (q, j) (r, k) a e =
      let (line, parsed, rest) = >>=-eq-ok (parse_line atob btoa l) _ e in
      let (c'', added, last) = >>=-eq-ok (add_line atob btoa c line) _ rest in
      collect-All_sig c'' c' ls h j k (add_line-All_sig c c'' l line parsed p q r added a) last
