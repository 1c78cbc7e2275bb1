-- ===== src/NarInfo/Fields.antt =====
-- src/protocol/narinfo.ts: records without a differing field.
use nixstr_cache.Prelude.{
  ◌≡◌, refl, ap, Bool, true, not, Option, none, some, List, [], ◌∷◌, arith, keep, All, Text,
  text_eq_sound, ==_iff,
}
use nixstr_cache.NarInfo.{NarInfo}
use nixstr_cache.NarInfo.Ops.{
  of_option, semantic, semantic_fields, same_texts, same_value, differing_fields,
}

-- Two records have the same semantic fields.
pub record Agrees (a b : NarInfo) : Type 0 where
  pub store_path : a.store_path ≡ b.store_path
  pub url : a.url ≡ b.url
  pub compression : a.compression ≡ b.compression
  pub file_hash : a.file_hash ≡ b.file_hash
  pub file_size : a.file_size ≡ b.file_size
  pub nar_hash : a.nar_hash ≡ b.nar_hash
  pub nar_size : a.nar_size ≡ b.nar_size
  pub references : a.references ≡ b.references
  pub deriver : a.deriver ≡ b.deriver
  pub system : a.system ≡ b.system
  pub ca : a.ca ≡ b.ca

kept_none :
    {A : Type 0} (p : A → Bool) (xs : List A)
    → keep (λ x. not (p x)) xs ≡ []
    → All (λ x. p x ≡ true) xs
kept_none p [] h = tt
kept_none p (x ∷ xs) h = ground (arith, kept_none p xs)

same_texts_sound : (xs ys : List Text) → same_texts xs ys ≡ true → xs ≡ ys
unfolding same_texts
same_texts_sound [] [] h = refl
same_texts_sound [] (y ∷ ys) h = ground arith
same_texts_sound (x ∷ xs) [] h = ground arith
same_texts_sound (x ∷ xs) (y ∷ ys) h = ground (arith, text_eq_sound x y, same_texts_sound xs ys)

same_option_sound : (a b : Option Text) → same_value (of_option a) (of_option b) ≡ true → a ≡ b
unfolding same_value
same_option_sound none none h = refl
same_option_sound none (some b) h = ground arith
same_option_sound (some a) none h = ground arith
same_option_sound (some a) (some b) h = ap some (text_eq_sound a b h)

pub differing_fields-Agrees : (a b : NarInfo) → differing_fields a b ≡ [] → Agrees a b
unfolding differing_fields semantic same_value
differing_fields-Agrees a b h =
    let (path, (url, (comp, (fh, (fs, (nh, (ns, (refs, (der, (sys, (ca, _))))))))))) =
      kept_none (λ f. same_value (semantic a f) (semantic b f)) semantic_fields h in
    record {
      store_path = text_eq_sound _ _ path;
      url = text_eq_sound _ _ url;
      compression = text_eq_sound _ _ comp;
      file_hash = text_eq_sound _ _ fh;
      file_size = (==_iff _ _).0 fs;
      nar_hash = text_eq_sound _ _ nh;
      nar_size = (==_iff _ _).0 ns;
      references = same_texts_sound _ _ refs;
      deriver = same_option_sound _ _ der;
      system = same_option_sound _ _ sys;
      ca = same_option_sound _ _ ca;
    }
