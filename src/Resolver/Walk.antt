-- ===== src/Resolver/Walk.antt =====
-- src/hashtree/reader.ts, `resolve`: the walk down a path.
use nixstr_cache.Prelude.{
  ℕ, suc, zero, ◌+◌, Bool, true, false, not, ◌&&◌, Option, none, some, List, [], ◌∷◌, keep, find,
  length, Text, txt, text_eq, text_lt, split,
}
use nixstr_cache.Nhash.{hex}
use nixstr_cache.SourcePlan.{is_empty}
use nixstr_cache.Budget.{check_depth, debit_links, Budget}
use nixstr_cache.Manifest.Value.{Raw, str, Fields, find_field}
use nixstr_cache.Manifest.{
  Manifest, Kind, file, directory, fanout, Link, LinkType, raw_link, file_link, directory_link,
  fanout_link,
}
use nixstr_cache.Resolver.Step.{
  Error, unavailable, nar_failed, absent, wrong_type, is_directory, out_of_fuel, Reply, done,
  failed, Step, ◌>>=◌, ◌>>◌, pure, throw, ensure, spend,
}
use nixstr_cache.Resolver.Fetch.{World, manifest_of, fetch_blob}
use nixstr_cache.Resolver.Plan.{Chunk, file_plan}

pub data Method : Type 0 where
  get head : Method

-- The body of a resolved path: none for HEAD, the bytes of one blob, or chunks yet to be fetched.
pub data Body : Type 0 where
  no_body : Body
  whole : List ℕ → Body
  chunked : List Chunk → Body

-- `ResolvedPath`.
pub record Resolved : Type 0 where
  pub hash : Text
  pub size : ℕ
  pub type : LinkType
  pub body : Body

abbrev pub is_named : Text → Option Text → Bool
is_named segment none = false
is_named segment (some n) = text_eq n segment

abbrev within_texts : Text → Option Raw → Option Raw → Bool
within_texts segment (some (str first)) (some (str last)) =
    not (text_lt segment first) && not (text_lt last segment)
within_texts segment _ _ = false

-- Whether a segment lies in the range of a fanout link, by code units.
abbrev pub covers : Text → Option Fields → Bool
covers segment none = false
covers segment (some m) =
    within_texts segment (find_field (txt "first") m) (find_field (txt "last") m)

unfoldable pub choose : Text → Manifest → Option Link
choose segment m = elim m.kind [
  | directory ↦ find (λ l. is_named segment l.name) m.links
  | fanout ↦ find (λ l. covers segment l.metadata) m.links
  | file ↦ find (λ l. covers segment l.metadata) m.links
]

abbrev pub same_kind : Kind → Kind → Bool
same_kind directory directory = true
same_kind fanout fanout = true
same_kind file file = true
same_kind _ _ = false

abbrev pub found_or : {A : Type 0} → Option A → Error → Step A
found_or none e = throw e
found_or (some a) e = pure a

-- The kind of the manifest behind a link.
abbrev pub kind_behind : LinkType → Option Kind
kind_behind directory_link = some directory
kind_behind fanout_link = some fanout
kind_behind raw_link = none
kind_behind file_link = none

-- What a step of the loop chooses: the link of the last segment, or the next manifest.
pub data Turn : Type 0 where
  final : Link → Turn
  onward : Text → Kind → Text → List Text → Turn

abbrev pub behind : Link → Text → List Text → Step Turn
behind l segment rest =
    found_or (kind_behind l.type) absent >>= (λ k. pure (onward (hex l.hash) k segment rest))

-- The kind behind a link of a fanout, which holds directories and fanouts only.
abbrev pub fan_kind : LinkType → Kind
fan_kind directory_link = directory
fan_kind fanout_link = fanout
fan_kind raw_link = directory
fan_kind file_link = directory

abbrev pub next_turn : Kind → Link → Text → List Text → Step Turn
next_turn directory l segment [] = pure (final l)
next_turn directory l segment (next ∷ rest) = behind l next rest
next_turn fanout l segment rest = pure (onward (hex l.hash) (fan_kind l.type) segment rest)
next_turn file l segment rest = pure (onward (hex l.hash) (fan_kind l.type) segment rest)

-- The rest of the loop after a turn.
abbrev pub follow : (Text → Kind → Text → List Text → Step Link) → Turn → Step Link
follow again (final l) = pure l
follow again (onward h k segment rest) = again h k segment rest

abbrev pub described : Link → ℕ → Body → Resolved
described l size body = record { hash = hex l.hash; size = size; type = l.type; body = body }

abbrev pub body_of : Method → List Chunk → Body
body_of head chunks = no_body
body_of get chunks = chunked chunks

-- The `catch` of the last segment: failed fetches name their sources.
abbrev pub blamed : Error → Error
blamed (unavailable []) = unavailable []
blamed (unavailable (o ∷ os)) = nar_failed (o ∷ os)
blamed e = e

abbrev pub caught : {A : Type 0} → Reply A → Reply A
caught (done a s) = done a s
caught (failed e s) = failed (blamed e) s

-- `path.split("/").filter(Boolean)`.
unfoldable pub segments_of : Text → List Text
segments_of path = keep (λ t. not (is_empty t)) (split b'/' path)

module _ (w : World) where
  -- One round of the loop, up to the chosen link.
  unfoldable pub round : Text → Kind → ℕ → Text → List Text → Step Turn
  round hash expected depth segment rest = do
    spend w.clock (λ now. check_depth now depth)
    m ← manifest_of w hash
    ensure (same_kind expected m.kind) wrong_type
    spend w.clock (λ now. debit_links now (length m.links))
    l ← found_or (choose segment m) absent
    next_turn m.kind l segment rest

  -- The loop of `resolve`, up to the link of the last segment.
  unfoldable pub walk : ℕ → Text → Kind → ℕ → Text → List Text → Step Link
  walk zero hash expected depth segment rest = throw out_of_fuel
  walk (suc fuel) hash expected depth segment rest =
      round hash expected depth segment rest >>= follow (λ h k s r. walk fuel h k (depth + 1) s r)

  -- The `try` block of the last segment.
  unfoldable pub open_link : Method → LinkType → Link → Step Resolved
  open_link head raw_link l = pure (described l l.size no_body)
  open_link get raw_link l = λ s.
      (fetch_blob w (hex l.hash) (some (l.size)) s.budget.limits.max_blob_transfer_bytes
          >>= (λ b. pure (described l l.size (whole b))))
        s
  open_link method file_link l =
      file_plan w (hex l.hash) l.size >>= (λ p. pure (described l p.size (body_of method p.chunks)))
  open_link method directory_link l = throw is_directory
  open_link method fanout_link l = throw is_directory

  unfoldable pub resolve_segments : Text → List Text → Method → Step Resolved
  resolve_segments root [] method = throw absent
  resolve_segments root (segment ∷ rest) method = λ s.
      (walk (suc s.budget.limits.max_depth) root directory 1 segment rest
          >>= (λ l t. caught (open_link method l.type l t)))
        s

  -- `resolve`; the map of manifests is new.
  unfoldable pub resolve : Text → Text → Method → Budget → ℕ → Reply Resolved
  resolve root path method b tick =
      resolve_segments root (segments_of path) method
        (record { budget = b; manifests = []; tick = tick })
