-- ===== src/Registry/Winner/Served.antt =====
-- src/nix/merged_cache.ts, `WinnerRouteRegistry`: how long a publication that was set is served.
use nixstr_cache.Prelude.{
  ℕ, ◌+◌, ◌<◌, ◌≡◌, refl, sym, ap, subst, ◌∙◌, Option, none, some, List, [], ◌∷◌, arith, leb,
  if◌then◌else◌, Option-cases, Bool-cases, Text, text_eq, text_eq_refl, text_eq_sound, lookup,
  remove, insert, lookup-remove, inl, inr,
}
use nixstr_cache.Registry.{Entry, normalized}
use nixstr_cache.Registry.Winner.{Registry, purge, evict, set, get_key, get}
use nixstr_cache.Registry.Winner.Held.{
  Held, Held-lookup, Held-purge, Held-remove, Held-evict, Held-suc, Held-insert, insert-Held,
  lookup-evict,
}

-- A call of the registry, with its time. A `set` of a route that is not well formed throws and
-- leaves the registry as it was.
pub data Call (P : Type 0) : Type 0 where
  get_at : ℕ → Text → Call P
  set_at : ℕ → Text → P → Call P

abbrev pub set_or : {P : Type 0} → Registry P → Option (Registry P) → Registry P
set_or r none = r
set_or r (some r') = r'

unfoldable pub run : {P : Type 0} → List (Call P) → Registry P → Registry P
run [] r = r
run (get_at now path ∷ cs) r = run cs ((get now path r).1)
run (set_at now path p ∷ cs) r = run cs (set_or r (set now path p r))

abbrev pub sets : {P : Type 0} → List (Call P) → ℕ
sets [] = 0
sets (get_at now path ∷ cs) = sets cs
sets (set_at now path p ∷ cs) = sets cs + 1

-- Every call is before the time, and none sets the route.
abbrev pub Spares : {P : Type 0} → Text → ℕ → List (Call P) → Type 0
Spares path end [] = Unit {0}
Spares path end (get_at now other ∷ cs) = (now < end) × Spares path end cs
Spares path end (set_at now other p ∷ cs) =
    (now < end) × ¬ (normalized other ≡ normalized path) × Spares path end cs

module _ {P : Type 0} where
  -- The registry holds the entry, with at most `n` behind it, and its limit.
  Holds : Text → Entry P → ℕ → ℕ → Registry P → Type 0
  Holds key e n max r = Held key e n r.entries × (r.max_entries ≡ max)

  Holds-get_key :
      (now : ℕ) (j key : Text) (e : Entry P) (n max : ℕ) (r : Registry P)
      → now < e.expires_at
      → Holds key e n max r
      → Holds key e n max ((get_key now j r).1)
  unfolding get_key Holds
  Holds-get_key now j key e n max r late (h, size) = elim (Bool-cases (text_eq j key)) [
    | inl same ↦
        let found =
          subst (λ k. lookup k r.entries ≡ some e) (sym (text_eq_sound j key same))
            (Held-lookup key e n r.entries h) in
        ground (arith, found)
    | inr other ↦ ground (arith, Held-remove j key e n r.entries other h)
  ]

  Holds-get :
      (now : ℕ) (path key : Text) (e : Entry P) (n max : ℕ) (r : Registry P)
      → now < e.expires_at
      → Holds key e n max r
      → Holds key e n max ((get now path r).1)
  unfolding get
  Holds-get now path key e n max r late h = elim (Option-cases (normalized path)) [
    | inl none_of ↦ rw (get, none_of) h
    | inr (j, some_of) ↦ rw (get, some_of) (Holds-get_key now j key e n max r late h)
  ]

  set-some :
      (now : ℕ) (path key : Text) (p : P) (r : Registry P)
      → normalized path ≡ some key
      → set now path p r
        ≡ some (record r {
          entries =
              insert key
                (record { value = p; expires_at = now + r.ttl })
                (evict r.max_entries (remove key (purge now r.entries)));
        })
  unfolding set
  set-some now path key p r name = rw (set, name) refl

  Holds-set :
      (now : ℕ) (path key : Text) (p : P) (e : Entry P) (n max : ℕ) (r : Registry P)
      → now < e.expires_at
      → ¬ (normalized path ≡ some key)
      → n + 1 < max
      → Holds key e n max r
      → Holds key e (n + 1) max (set_or r (set now path p r))
  unfolding set Holds
  Holds-set now path key p e n max r late other room (h, size) =
      elim (Option-cases (normalized path)) [
        | inl none_of ↦ rw (set_or, set, none_of) (Held-suc key e n r.entries h, size)
        | inr (j, some_of) ↦ elim (Bool-cases (text_eq j key)) [
          | inl same ↦ absurd (other (some_of ∙ ap some (text_eq_sound j key same)))
          | inr differ ↦
              subst (λ x. Holds key e (n + 1) max (set_or r x))
                (sym (set-some now path j p r some_of))
                (
                  Held-insert j key _ e n _ differ (
                      Held-evict r.max_entries key e n _ (omega arith)
                        (Held-remove j key e n _ differ (Held-purge now key e n r.entries late h))),
                  size,
                )
        ]
      ]

  Holds-run :
      (path key : Text) (e : Entry P) (n max : ℕ) (cs : List (Call P)) (r : Registry P)
      → normalized path ≡ some key
      → Spares path e.expires_at cs
      → n + sets cs < max
      → Holds key e n max r
      → lookup key (run cs r).entries ≡ some e
  unfolding run Holds
  Holds-run path key e n max [] r name spares room h = Held-lookup key e n r.entries h.0
  Holds-run path key e n max (get_at now other ∷ cs) r name (late, spares) room h =
      Holds-run path key e n max cs ((get now other r).1) name spares room
        (Holds-get now other key e n max r late h)
  Holds-run path key e n max (set_at now other p ∷ cs) r name (late, differ, spares) room h =
      Holds-run path key e (n + 1) max cs (set_or r (set now other p r)) name spares (omega arith)
        (Holds-set now other key p e n max r late (λ f. differ (f ∙ sym name)) (omega arith) h)

  set-Holds :
      (now : ℕ) (path key : Text) (p : P) (r r' : Registry P)
      → normalized path ≡ some key
      → set now path p r ≡ some r'
      → Holds key (record { value = p; expires_at = now + r.ttl }) 0 r.max_entries r'
  unfolding set Holds
  set-Holds now path key p r r' name h =
      let e : Entry P = record { value = p; expires_at = now + r.ttl } in
      let es = evict r.max_entries (remove key (purge now r.entries)) in
      let gone =
        lookup-evict r.max_entries key (remove key (purge now r.entries))
          (lookup-remove key key (purge now r.entries) ∙ rw (text_eq_refl key) refl) in
      ground (arith, name, insert-Held key e es gone)

  set_ill :
      (now : ℕ) (path : Text) (p : P) (r r' : Registry P)
      → normalized path ≡ none
      → ¬ (set now path p r ≡ some r')
  unfolding set
  set_ill now path p r r' e h = ground (arith, e)

  get-lookup :
      (later : ℕ) (path key : Text) (e : Entry P) (r : Registry P)
      → normalized path ≡ some key
      → lookup key r.entries ≡ some e
      → (get later path r).0 ≡ (if leb e.expires_at later then none else some e.value)
  unfolding get get_key
  get-lookup later path key e r name h = ground (arith, name, h)

  -- A publication is set for a route. Then `get` and `set` are called any number of times, each
  -- before the publication's time to live has passed, none of them a `set` of that route, and fewer
  -- of them a `set` than the limit of entries. A `get` of any spelling of the route after that
  -- returns the publication if its time to live has not passed by then, and nothing if it has.
  pub get-run-set :
      (now later : ℕ) (path path' : Text) (p : P) (cs : List (Call P)) (r r' : Registry P)
      → set now path p r ≡ some r'
      → normalized path' ≡ normalized path
      → Spares path (now + r.ttl) cs
      → sets cs < r.max_entries
      → (get later path' (run cs r')).0 ≡ (if leb (now + r.ttl) later then none else some p)
  get-run-set now later path path' p cs r r' h same spares room =
      elim (Option-cases (normalized path)) [
        | inl e ↦ absurd (set_ill now path p r r' e h)
        | inr (key, name) ↦
            get-lookup later path' key (record { value = p; expires_at = now + r.ttl }) (run cs r')
              (same ∙ name)
              (Holds-run path key (record { value = p; expires_at = now + r.ttl }) 0 r.max_entries
                cs r' name spares (omega arith) (set-Holds now path key p r r' name h))
      ]
