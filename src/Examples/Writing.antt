-- ===== src/Examples/Writing.antt =====
-- src/hashtree/writer.ts: small trees that are built, and read back.
use nixstr_cache.Prelude.{
  append-nil, ℕ, zero, suc, ◌≡◌, ◌≢◌, ◌≤◌, ◌<◌, refl, Bool, true, false, Option, none, some, List,
  [], ◌∷◌, ◌++◌, All, Text, txt, text_eq, if◌then◌else◌, arith, take, length,
}
use nixstr_cache.Prelude.Result.{ok, err}
use nixstr_cache.Nhash.{hex}
use nixstr_cache.Manifest.Value.{Codec, Raw, Fields, Items, num, arr, object, cons, nil, find_field}
use nixstr_cache.Manifest
use nixstr_cache.Manifest.{
  Manifest, directory, fanout, file, Link, raw_link, file_link, directory_link, fanout_link,
  encode_manifest, type_number,
}
use nixstr_cache.Resolver.Step.{value, State as Request}
use nixstr_cache.Resolver.Fetch.{World}
use nixstr_cache.Resolver.Plan.{Chunk, file_plan}
use nixstr_cache.Resolver.Trees.{nothing, chunk}
use nixstr_cache.Resolver.Walk.{Resolved, get, resolve}
use nixstr_cache.Resolver.Runs.{Keeps-refl}
use nixstr_cache.Resolver.Fetches.{tree_of, IsAuthentic}
use nixstr_cache.Writer.{
  out_of_fuel, Built, State, Limits, Platform, a_file, a_directory, collapse, range_of,
}
use nixstr_cache.Writer.Spelling.{Spelled}
use nixstr_cache.Writer.Files.{file_plan-collapse}
use nixstr_cache.Writer.Roots.{resolve-collapse}
use nixstr_cache.Writer.Chunks.{build_file}
use nixstr_cache.Writer.Fuel.{collapse-ends, build_file-ends}
use nixstr_cache.Writer.Pieces.{IsFileOf, build_file-IsFileOf}
use nixstr_cache.Resolver.Stream.{body_stream}
use nixstr_cache.Resolver.Streams.{IsWhole}
use nixstr_cache.Writer.ReadBack.{body_stream-build_file}
use nixstr_cache.Writer.Routes
use nixstr_cache.Writer.Routes.{
  limits_of, check_routes, IsRoute, AreOrdered, check_routes-AreOrdered,
}
use nixstr_cache.Examples.Trees.{zeros, wide, budget}

-- A digest that pads, and an encoding that tells the manifests apart that are built here.
abbrev sha256 : List ℕ → List ℕ
sha256 bytes = take 32 (bytes ++ zeros 32)

abbrev kind_in : Option Raw → ℕ
kind_in (some (num n)) = n
kind_in _ = 0

abbrev count_items : Items → ℕ
count_items nil = 0
count_items (cons _ xs) = suc (count_items xs)

abbrev count_links : Option Raw → ℕ
count_links (some (arr xs)) = count_items xs
count_links _ = 0

abbrev encode : Raw → List ℕ
encode (object fs) = kind_in (find_field (txt "t") fs) ∷ count_links (find_field (txt "l") fs) ∷ []
encode _ = []

abbrev platform : Platform
platform = record { sha256 = sha256; encode = encode }

abbrev narrow : Limits
narrow = record { max_links = 2; max_inventory_blobs = 9; max_inventory_bytes = 999 }

abbrev empty : State
empty = record { inventory = []; total = 0; blobs = []; manifests = [] }

abbrev entry : ℕ → Link
entry c = record {
  hash = zeros 32;
  key = none;
  metadata = none;
  name = some (c ∷ []);
  size = 3;
  type = raw_link;
}

abbrev lower : Manifest
lower = record { kind = directory; links = entry 97 ∷ entry 98 ∷ [] }

abbrev upper : Manifest
upper = record { kind = directory; links = entry 99 ∷ [] }

abbrev group_link : List ℕ → Manifest → ℕ → Link
group_link hash m size = record {
  hash = hash;
  key = none;
  metadata = range_of m.links;
  name = none;
  size = size;
  type = directory_link;
}

abbrev top : Manifest
top = record {
  kind = fanout;
  links = group_link (sha256 (2 ∷ 2 ∷ [])) lower 6 ∷ group_link (sha256 (2 ∷ 1 ∷ [])) upper 3 ∷ [];
}

abbrev pair : Manifest
pair = record { kind = file; links = nameless 1 ∷ nameless 2 ∷ [] }
  where
    nameless : ℕ → Link
    nameless c = record {
      hash = sha256 (c ∷ []);
      key = none;
      metadata = none;
      name = none;
      size = 1;
      type = raw_link;
    }

abbrev decode : List ℕ → Option Raw
decode b =
    if text_eq b (3 ∷ 2 ∷ [])
    then some (encode_manifest top)
    else if text_eq b (2 ∷ 2 ∷ [])
    then some (encode_manifest lower)
    else if text_eq b (2 ∷ 1 ∷ [])
    then some (encode_manifest upper)
    else if text_eq b (1 ∷ 2 ∷ [])
    then some (encode_manifest pair)
    else none

abbrev content : Text → List ℕ
content h =
    if text_eq h (hex (sha256 (3 ∷ 2 ∷ [])))
    then 3 ∷ 2 ∷ []
    else if text_eq h (hex (sha256 (2 ∷ 2 ∷ [])))
    then 2 ∷ 2 ∷ []
    else if text_eq h (hex (sha256 (2 ∷ 1 ∷ [])))
    then 2 ∷ 1 ∷ []
    else if text_eq h (hex (sha256 (1 ∷ 2 ∷ [])))
    then 1 ∷ 2 ∷ []
    else 5 ∷ []

abbrev world : World
world = record {
  clock = λ n. n;
  fetch = λ h l b t. record { result = ok (content h); budget = b; tick = t };
  recall = λ h t. none;
  codec = record { utf8 = λ t. t; encode = encode; decode = decode };
  limits = wide;
}

world-IsAuthentic : IsAuthentic world content
world-IsAuthentic = record {
  bytes = λ h l b t e. cc;
  spends = λ h l b t. Keeps-refl b;
  recalls = λ h t e. cc;
  refuses = λ h t e. cc;
}

found_lower : tree_of world content (hex (sha256 (encode (encode_manifest lower)))) ≡ some lower
unfolding tree_of nixstr_cache.Manifest.Rules.decode_validated text_eq hex encode_manifest
    find_field nixstr_cache.Manifest.Value.cost nixstr_cache.Prelude.text_lt
    nixstr_cache.Manifest.Value.item_list nixstr_cache.Prelude.has_char
found_lower = refl

found_upper : tree_of world content (hex (sha256 (encode (encode_manifest upper)))) ≡ some upper
unfolding tree_of nixstr_cache.Manifest.Rules.decode_validated text_eq hex encode_manifest
    find_field nixstr_cache.Manifest.Value.cost nixstr_cache.Prelude.text_lt
    nixstr_cache.Manifest.Value.item_list nixstr_cache.Prelude.has_char
found_upper = refl

found_top : tree_of world content (hex (sha256 (encode (encode_manifest top)))) ≡ some top
unfolding tree_of nixstr_cache.Manifest.Rules.decode_validated text_eq hex encode_manifest
    find_field nixstr_cache.Manifest.Value.cost nixstr_cache.Prelude.text_lt
    nixstr_cache.Manifest.Value.item_list nixstr_cache.Manifest.Value.json_fields
found_top = refl

found_pair : tree_of world content (hex (sha256 (encode (encode_manifest pair)))) ≡ some pair
unfolding tree_of nixstr_cache.Manifest.Rules.decode_validated text_eq hex encode_manifest
    find_field nixstr_cache.Manifest.Value.cost nixstr_cache.Prelude.text_lt
    nixstr_cache.Manifest.Value.item_list
found_pair = refl

abbrev entries : List Link
entries = entry 97 ∷ entry 98 ∷ entry 99 ∷ []

abbrev root : Built
root = record {
  blob = record { hash = sha256 (3 ∷ 2 ∷ []); size = 2 };
  logical_size = 9;
  type = fanout_link;
  count = 3;
}

abbrev after_root : State
after_root = record {
  inventory =
      (hex (sha256 (3 ∷ 2 ∷ [])), 2)
      ∷ (hex (sha256 (2 ∷ 1 ∷ [])), 2)
      ∷ (hex (sha256 (2 ∷ 2 ∷ [])), 2)
      ∷ [];
  total = 6;
  blobs = (3 ∷ 2 ∷ []) ∷ (2 ∷ 1 ∷ []) ∷ (2 ∷ 2 ∷ []) ∷ [];
  manifests = top ∷ upper ∷ lower ∷ [];
}

root_built : collapse platform narrow 3 a_directory 0 entries empty ≡ ok (root, after_root)
unfolding collapse nixstr_cache.Writer.next_level nixstr_cache.Writer.flush_group
    nixstr_cache.Writer.persist_manifest nixstr_cache.Writer.persist nixstr_cache.Prelude.lookup
    encode_manifest nixstr_cache.Writer.logical_size_of text_eq hex find_field
    nixstr_cache.Writer.finish
root_built = refl

resolve-collapse_example : ¬ (
    (r : Resolved) × (value (resolve world (hex (sha256 (3 ∷ 2 ∷ []))) (txt "a") get budget 0)
      ≡ ok r))
resolve-collapse_example =
    resolve-collapse platform narrow world content (txt "a") get budget 0 3 entries empty
      world-IsAuthentic root_built (found_top, (found_upper, (found_lower, tt))) (omega arith)

collapse-ends_example : collapse platform narrow 3 a_directory 0 entries empty ≢ err out_of_fuel
collapse-ends_example =
    collapse-ends platform narrow 3 a_directory 0 entries empty (omega arith) (omega arith)
      (omega arith)

abbrev after_pair : State
after_pair = record {
  inventory = (hex (sha256 (1 ∷ 2 ∷ [])), 2) ∷ [];
  total = 2;
  blobs = (1 ∷ 2 ∷ []) ∷ [];
  manifests = pair ∷ [];
}

abbrev file_built : Built
file_built = record {
  blob = record { hash = sha256 (1 ∷ 2 ∷ []); size = 2 };
  logical_size = 2;
  type = file_link;
  count = 1;
}

abbrev chunk_at : ℕ → Chunk
chunk_at c = record { hash = hex (sha256 (c ∷ [])); size = 1 }

pair_built : collapse platform narrow 2 a_file 0 pair.links empty ≡ ok (file_built, after_pair)
unfolding collapse nixstr_cache.Writer.finish nixstr_cache.Writer.persist_manifest
    nixstr_cache.Writer.persist nixstr_cache.Prelude.lookup encode_manifest
    nixstr_cache.Writer.logical_size_of find_field text_eq
pair_built = refl

abbrev request : Request
request = record { budget = budget; manifests = []; tick = 0 }

planned :
    value (file_plan world (hex (sha256 (1 ∷ 2 ∷ []))) 2 request)
    ≡ ok (record { size = 2; chunks = chunk_at 1 ∷ chunk_at 2 ∷ [] })
unfolding file_plan nixstr_cache.Resolver.Plan.visit_file nixstr_cache.Resolver.Step.spend
    nixstr_cache.Budget.check_depth nixstr_cache.Resolver.Fetch.manifest_of
    nixstr_cache.Prelude.lookup nixstr_cache.Resolver.Fetch.load_manifest nixstr_cache.Budget.visit
    nixstr_cache.Resolver.Fetch.obtain nixstr_cache.Resolver.Fetch.load
    nixstr_cache.Resolver.Fetch.fetch_blob nixstr_cache.Budget.acquire
    nixstr_cache.Resolver.Fetch.transfer nixstr_cache.Resolver.Fetch.ask
    nixstr_cache.Manifest.Rules.decode_validated text_eq hex nixstr_cache.Budget.debit_decoded
    nixstr_cache.Budget.debit_links nixstr_cache.Budget.ensure_output_available
    nixstr_cache.Budget.live nixstr_cache.Budget.release nixstr_cache.Manifest.Decode.bytes32
    nixstr_cache.Manifest.Decode.decode_link nixstr_cache.Manifest.Decode.decode_links
    nixstr_cache.Manifest.Decode.exact_keys nixstr_cache.Manifest.Decode.insert_text
    nixstr_cache.Manifest.Decode.is_allowed nixstr_cache.Manifest.Decode.link_type
    nixstr_cache.Manifest.Decode.manifest_kind nixstr_cache.Manifest.Decode.same_texts
    nixstr_cache.Manifest.Decode.sort_texts nixstr_cache.Manifest.Decode.uint
    nixstr_cache.Manifest.Rules.check_file nixstr_cache.Manifest.Rules.check_links
    nixstr_cache.Manifest.Rules.is_file_link nixstr_cache.Manifest.Rules.validate
    nixstr_cache.Manifest.Value.cost find_field nixstr_cache.Manifest.Value.item_list
    nixstr_cache.Prelude.text_lt nixstr_cache.Resolver.Fetch.remember
    nixstr_cache.Resolver.Plan.parts encode_manifest nixstr_cache.Manifest.encode_links
    nixstr_cache.Manifest.encode_link
planned = refl

spelled : Spelled (tree_of world content) pair.links (chunk_at 1 ∷ chunk_at 2 ∷ [])
spelled = (2, chunk {n = 1} refl (chunk {n = 0} refl nothing (omega arith) refl) (omega arith) refl)

file_plan-collapse_example :
    (◌≡◌ {A = List Chunk} (chunk_at 1 ∷ chunk_at 2 ∷ []) (chunk_at 1 ∷ chunk_at 2 ∷ []))
    × (◌≡◌ {A = ℕ} 2 2)
    × (◌≡◌ {A = ℕ} 2 2)
file_plan-collapse_example =
    file_plan-collapse platform narrow world content request 2 2 pair.links empty
      (chunk_at 1 ∷ chunk_at 2 ∷ []) world-IsAuthentic (record { limits = refl; known = tt })
      pair_built (found_pair, tt) spelled planned

abbrev small : List ℕ
small = 5 ∷ []

abbrev small_built : Built
small_built = record {
  blob = record { hash = sha256 small; size = 1 };
  logical_size = 1;
  type = raw_link;
  count = 1;
}

abbrev after_small : State
after_small = record {
  inventory = (hex (sha256 small), 1) ∷ [];
  total = 1;
  blobs = small ∷ [];
  manifests = [];
}

written : build_file platform narrow small 1 empty ≡ ok (small_built, after_small)
unfolding build_file nixstr_cache.Writer.Chunks.read_chunks nixstr_cache.Writer.persist
    nixstr_cache.Prelude.lookup nixstr_cache.Writer.Chunks.build_links
written = refl

served : content (hex (sha256 small)) ≡ small
unfolding text_eq hex
served = refl

build_file-IsFileOf_example :
    IsFileOf platform narrow (tree_of world content) content small small_built × (1 ≡ length small)
build_file-IsFileOf_example =
    build_file-IsFileOf platform narrow (tree_of world content) content small 1 empty written tt
      (served, tt)

build_file-ends_example : build_file platform narrow small 1 empty ≢ err out_of_fuel
build_file-ends_example = build_file-ends platform narrow small 1 empty (omega arith)

abbrev reads : List ℕ → List (List ℕ)
reads b = b ∷ []

reads-IsWhole : IsWhole reads
reads-IsWhole b = append-nil b

streamed : value (body_stream world reads raw_link (hex (sha256 small)) 1 request) ≡ ok small
unfolding body_stream nixstr_cache.Resolver.Stream.raw_stream nixstr_cache.Resolver.Fetch.fetch_blob
    nixstr_cache.Resolver.Step.spend nixstr_cache.Budget.acquire
    nixstr_cache.Resolver.Fetch.transfer nixstr_cache.Resolver.Fetch.ask
    nixstr_cache.Resolver.Stream.emit text_eq hex nixstr_cache.Budget.debit_output
    nixstr_cache.Budget.release
streamed = refl

body_stream-build_file_example : ◌≡◌ {A = List ℕ} small small
body_stream-build_file_example =
    body_stream-build_file platform narrow world content reads request small 1 1 empty
      world-IsAuthentic reads-IsWhole (record { limits = refl; known = tt }) written tt (served, tt)
      streamed

abbrev route_limits : Routes.Limits
route_limits = limits_of 9 none none none

abbrev routes : List Text
routes = txt "a.narinfo" ∷ txt "nar/a.nar" ∷ []

routes_pass : check_routes (λ t. t) route_limits 0 none routes ≡ ok tt
unfolding check_routes Routes.check_route limits_of Routes.parts_of nixstr_cache.Prelude.split
    nixstr_cache.Prelude.split_from text_eq nixstr_cache.Prelude.has_char
    nixstr_cache.Prelude.text_lt
routes_pass = refl

check_routes-AreOrdered_example :
    (length routes ≤ route_limits.max_entries)
    × All (IsRoute (λ t. t) route_limits) routes
    × AreOrdered (λ t. t) route_limits routes
check_routes-AreOrdered_example = check_routes-AreOrdered (λ t. t) route_limits routes routes_pass
