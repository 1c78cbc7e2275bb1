-- ===== src/NarInfo/Merge.antt =====
-- src/protocol/narinfo.ts: parsing a record to which the signatures of others are appended.
use nixstr_cache.Prelude.{
  ℕ, ◌≡◌, refl, sym, ap, subst, ◌∙◌, true, Option, List, [], ◌∷◌, ◌++◌, map, arith, append_assoc,
  append-nil, All, Text, has_char, split, drop_last, ends_with, drop_last-append, ends_with-append,
  ends_with-drop_last, ◌≢◌, inl, inr,
}
use nixstr_cache.Prelude.Result.{ok, ◌>>=◌, ensure, >>=-eq-ok, ensure-eq-ok}
use nixstr_cache.NarInfo.{
  Signature, NarInfo, Collected, not_lf_terminated, is_lf_text, collect, assemble, parse,
}
use nixstr_cache.NarInfo.Ops.{appended, append_signatures}
use nixstr_cache.NarInfo.Lines.{
  Lacks, Lacks-append, Lacks-left, split_from-Lacks, split-append, collect-append, collect_sigs,
  collect-All_sig, IsSigLine,
}

abbrev pub raw_lines : List Signature → List Text
raw_lines = map λ (s : Signature). s.raw_line

abbrev nothing : Collected
nothing = record { scalars = []; signatures = [] }

module _ (atob : Text → Option (List ℕ)) (btoa : List ℕ → Text) where
  -- The parts of a successful parse.
  record Parsed (t : Text) (w : NarInfo) : Type 0 where
    lf : is_lf_text atob btoa t ≡ true
    c : Collected
    collected : collect atob btoa nothing (split 10 (drop_last t)) ≡ ok c
    assembled : assemble atob btoa t c ≡ ok w

  parse-Parsed : (t : Text) (w : NarInfo) → parse atob btoa t ≡ ok w → Parsed t w
  unfolding parse
  parse-Parsed t w h =
      let (u, lf, rest) = >>=-eq-ok (ensure (is_lf_text atob btoa t) not_lf_terminated) _ h in
      let (c, collected, last) =
        >>=-eq-ok (collect atob btoa nothing (split 10 (drop_last t))) _ rest in
      record { lf = ensure-eq-ok _ _ lf; c = c; collected = collected; assembled = last }

  Parsed-parse : (t : Text) (w : NarInfo) → Parsed t w → parse atob btoa t ≡ ok w
  unfolding parse
  Parsed-parse t w p = ground (arith, p.lf, p.collected, p.assembled)

  -- Only the signatures and the text are not read from the scalars.
  assemble_again :
      (t t' : Text) (c : Collected) (ss : List Signature) (w : NarInfo)
      → assemble atob btoa t c ≡ ok w
      → assemble atob btoa t' (record c { signatures = ss })
        ≡ ok (record w { signatures = ss; raw_text = t' })
  unfolding assemble
  assemble_again t t' c ss w h = ground arith

  assemble-fields :
      (t : Text) (c : Collected) (w : NarInfo)
      → assemble atob btoa t c ≡ ok w
      → (w.raw_text ≡ t) × (w.signatures ≡ c.signatures)
  unfolding assemble
  assemble-fields t c w h = ground arith

  is_lf-parts :
      (t : Text) → is_lf_text atob btoa t ≡ true → (ends_with 10 t ≡ true) × Lacks 13 t × Lacks 0 t
  unfolding is_lf_text
  is_lf-parts t h = ground arith

  body-Lacks : (d : ℕ) (t : Text) → ends_with 10 t ≡ true → Lacks d t → Lacks d (drop_last t)
  body-Lacks d t h k =
      Lacks-left d (drop_last t) (10 ∷ []) (subst (Lacks d) (ends_with-drop_last 10 t h) k)

  lines-Lacks :
      (d : ℕ) (t : Text)
      → ends_with 10 t ≡ true
      → Lacks d t
      → All (Lacks d) (split 10 (drop_last t))
  unfolding split has_char
  lines-Lacks d t h k = split_from-Lacks 10 d [] (drop_last t) refl (inr (body-Lacks d t h k))

  -- Every signature of a parsed record comes from a line that parses to it.
  pub parse-All_sig :
      (t : Text) (w : NarInfo) → parse atob btoa t ≡ ok w → All (IsSigLine atob btoa) w.signatures
  unfolding split has_char
  parse-All_sig t w h =
      let p = parse-Parsed t w h in
      let (last, cr, nul) = is_lf-parts t p.lf in
      subst (All (IsSigLine atob btoa)) (sym ((assemble-fields t p.c w p.assembled).1)) (
        collect-All_sig atob btoa nothing p.c (split 10 (drop_last t))
          (split_from-Lacks 10 10 [] (drop_last t) refl (inl refl)) (lines-Lacks 13 t last cr)
          (lines-Lacks 0 t last nul) tt p.collected)

  appended-Lacks : (d : ℕ) (ls : List Text) → 10 ≢ d → All (Lacks d) ls → Lacks d (appended ls)
  unfolding appended has_char
  appended-Lacks d [] ne h = refl
  appended-Lacks d (l ∷ ls) ne (p, h) =
      ground (arith, Lacks-append d l (appended ls) p (appended-Lacks d ls ne h))

  raw-Lacks :
      (ss : List Signature)
      → All (IsSigLine atob btoa) ss
      → All (Lacks 10) (raw_lines ss) × All (Lacks 13) (raw_lines ss) × All (Lacks 0) (raw_lines ss)
  raw-Lacks [] h = (tt, tt, tt)
  raw-Lacks (s ∷ ss) (p, h) =
      let (a, b, c) = raw-Lacks ss h in ((p.one_line, a), (p.no_return, b), (p.no_null, c))

  is_lf_of : (b : Text) → Lacks 13 b → Lacks 0 b → is_lf_text atob btoa (b ++ 10 ∷ []) ≡ true
  unfolding is_lf_text has_char
  is_lf_of b cr nul = ground (
    arith,
    ends_with-append 10 b,
    Lacks-append 13 b (10 ∷ []) cr refl,
    Lacks-append 0 b (10 ∷ []) nul refl,
  )

  -- The text with lines appended has the lines of the first text, and then those.
  extended-Parsed :
      (t : Text) (w : NarInfo) (ss : List Signature) (t' : Text)
      → Parsed t w
      → All (IsSigLine atob btoa) ss
      → t' ≡ (drop_last t ++ appended (raw_lines ss)) ++ 10 ∷ []
      → Parsed t' (record w { signatures = w.signatures ++ ss; raw_text = t' })
  unfolding split
  extended-Parsed t w ss t' p h e =
      let (ten, cr, nul) = raw-Lacks ss h in
      let body = drop_last t ++ appended (raw_lines ss) in
      let (last, cr', nul') = is_lf-parts t p.lf in
      let fields = assemble-fields t p.c w p.assembled in
      record {
        lf =
            subst (λ x. is_lf_text atob btoa x ≡ true) (sym e)
              (is_lf_of body
                (Lacks-append 13 (drop_last t) _ (body-Lacks 13 t last cr')
                  (appended-Lacks 13 _ (omega arith) cr))
                (Lacks-append 0 (drop_last t) _ (body-Lacks 0 t last nul')
                  (appended-Lacks 0 _ (omega arith) nul)));
        c = record (p.c) { signatures = p.c.signatures ++ ss };
        collected =
            ap (λ x. collect atob btoa nothing (split 10 (drop_last x))) e
            ∙ ap (λ x. collect atob btoa nothing (split 10 x)) (drop_last-append 10 body)
            ∙ ap (collect atob btoa nothing) (split-append (drop_last t) [] (raw_lines ss) ten)
            ∙ collect-append atob btoa nothing (split 10 (drop_last t)) (raw_lines ss)
            ∙ ap (λ r. r >>= λ c'. collect atob btoa c' (raw_lines ss)) p.collected
            ∙ collect_sigs atob btoa p.c ss h;
        assembled =
            subst
              (λ x.
                assemble atob btoa t' (record (p.c) { signatures = p.c.signatures ++ ss })
                ≡ ok (record w { signatures = x ++ ss; raw_text = t' }))
              (sym fields.1) (assemble_again t t' p.c (p.c.signatures ++ ss) w p.assembled);
      }

  -- Appending the signatures of other records to a record gives a text that parses to the same
  -- record with those signatures behind its own: its semantic fields and its fingerprint stay.
  pub parse-append_signatures :
      (t : Text) (w : NarInfo) (ss : List Signature)
      → parse atob btoa t ≡ ok w
      → All (IsSigLine atob btoa) ss
      → parse atob btoa (append_signatures w (raw_lines ss))
        ≡ ok (record w {
          signatures = w.signatures ++ ss;
          raw_text = append_signatures w (raw_lines ss);
        })
  unfolding append_signatures
  parse-append_signatures t w [] h a =
      let p = parse-Parsed t w h in
      let (raw, _) = assemble-fields t p.c w p.assembled in
      ap (parse atob btoa) raw
      ∙ h
      ∙ ap (λ x. ok (record w { signatures = x })) (sym (append-nil w.signatures))
  parse-append_signatures t w (s ∷ ss) h a =
      let p = parse-Parsed t w h in
      let (raw, _) = assemble-fields t p.c w p.assembled in
      let lines = appended (raw_lines (s ∷ ss)) in
      Parsed-parse _ _ (
        extended-Parsed t w (s ∷ ss) (drop_last w.raw_text ++ (lines ++ 10 ∷ [])) p a (
          ap (λ x. drop_last x ++ (lines ++ 10 ∷ [])) raw
          ∙ sym (append_assoc (drop_last t) lines (10 ∷ []))))
