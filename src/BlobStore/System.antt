-- ===== src/BlobStore/System.antt =====
-- src/persistence/blob_store.ts: a store that serves calls while admissions are under way. An admission
-- awaits its source between the reservation and the promotion, and other calls run meanwhile.
use nixstr_cache.Prelude.{
  ℕ, ◌≡◌, refl, true, not, Option, List, [], ◌∷◌, arith, inl, inr, keep, All, All-imp, All-keep_imp,
  All-any, Any, Text, text_eq, text_eq_iff, ◌≢◌, subst, sym,
}
use nixstr_cache.BlobStore.State.{
  pure, Origin, Reservation, ComponentRow, Store, Error, done, threw, M, after,
}
use nixstr_cache.BlobStore.Usage.{HoldsToken, drop_token-le}
use nixstr_cache.BlobStore.{Disk, used, ready_bytes, reserved_bytes, reserve, release_reservation}
use nixstr_cache.BlobStore.Ops.{Source, fill, import_file, finally, lookup_blob, release_lease}
use nixstr_cache.BlobStore.Owners.{
  acquire_owner, transfer_owner, release_owner, commit_route, close,
}
use nixstr_cache.BlobStore.Capacity.{Fits, Holds, Shrinks, Shrinks-Fits, Reserved, reserve-Reserved}
use nixstr_cache.BlobStore.Quiet.{
  lookup_blob-Shrinks, release_lease-Shrinks, acquire_owner-Shrinks, transfer_owner-Shrinks,
  release_owner-Shrinks, commit_route-Shrinks,
}
use nixstr_cache.BlobStore.Admission.{Spends, fill-Spends, import_file-Spends}

pub data Call : Type 0 where
  looks_up drops_lease : Text → Call
  acquires : Text → Text → Call
  transfers : Text → Text → Option (List Text) → Call
  gives_up : Text → Option Text → Call
  commits : Text → ℕ → List ComponentRow → Text → Call
  closes : Call

unfoldable pub run_call : Disk → ℕ → Call → Store → Store
run_call d now (looks_up hash) s = after (lookup_blob now hash s)
run_call d now (drops_lease hash) s = after (release_lease d now hash s)
run_call d now (acquires owner hash) s = after (acquire_owner owner hash s)
run_call d now (transfers from to hashes) s = after (transfer_owner d now from to hashes s)
run_call d now (gives_up owner hash) s = after (release_owner d now owner hash s)
run_call d now (commits route size cs upload) s = after (commit_route d now route size cs upload s)
run_call d now closes s = after (close s)

run_call-Shrinks : (d : Disk) (now : ℕ) (c : Call) (s : Store) → Shrinks s (run_call d now c s)
unfolding run_call close used ready_bytes reserved_bytes
run_call-Shrinks d now (looks_up hash) s = lookup_blob-Shrinks d now hash s
run_call-Shrinks d now (drops_lease hash) s = release_lease-Shrinks d now hash s
run_call-Shrinks d now (acquires owner hash) s = acquire_owner-Shrinks d now owner hash s
run_call-Shrinks d now (transfers from to hashes) s = transfer_owner-Shrinks d now from to hashes s
run_call-Shrinks d now (gives_up owner hash) s = release_owner-Shrinks d now owner hash s
run_call-Shrinks d now (commits route size cs upload) s =
    commit_route-Shrinks d now route size cs upload s
run_call-Shrinks d now closes s = close-Shrinks s
  where
    close-Shrinks : (s : Store) → Shrinks s (after (close s))
    close-Shrinks s = ground arith

Shrinks-of_db : (s s' : Store) → s'.db ≡ s.db → s'.capacity ≡ s.capacity → Shrinks s s'
unfolding used ready_bytes reserved_bytes
Shrinks-of_db s s' e f = ground arith

-- The store, and the reservations of the admissions that are under way.
pub record System : Type 0 where
  pub store : Store
  pub pending : List Reservation

module _ (d : Disk) (sha256 : List ℕ → Text) where
  pub data Step : System → System → Type 0 where
    calls :
        (now : ℕ) (c : Call) (y : System) → Step y (record y { store = run_call d now c y.store })
    begins :
        (now : ℕ) (token : Text) (bytes : ℕ) (y : System) (r : Reservation) (s : Store)
        → reserve d now token bytes y.store ≡ done r s
        → Step y (record { store = s; pending = r ∷ y.pending })
    is_refused :
        (now : ℕ) (token : Text) (bytes : ℕ) (y : System) (e : Error) (s : Store)
        → reserve d now token bytes y.store ≡ threw e s
        → Step y (record y { store = s })
    finishes :
        (now : ℕ) (source : Source) (origin : Origin) (owner expected : Option Text)
        (r : Reservation) (y : System)
        → Any (λ q. q ≡ r) y.pending
        → Step y (record {
          store = after (
              finally
                (fill d sha256 now source origin owner expected r)
                (release_reservation r.token)
                y.store);
          pending = keep (λ q. not (text_eq q.token r.token)) y.pending;
        })
    imports :
        (now : ℕ) (chunks : List (List ℕ)) (hash : Text) (origin : Origin) (owner : Option Text)
        (r : Reservation) (y : System)
        → Any (λ q. q ≡ r) y.pending
        → Step y (record {
          store = after (
              finally
                (import_file d sha256 now chunks hash r.bytes origin owner r.token)
                (release_reservation r.token)
                y.store);
          pending = keep (λ q. not (text_eq q.token r.token)) y.pending;
        })
    gives_back :
        (r : Reservation) (y : System)
        → Any (λ q. q ≡ r) y.pending
        → Step y (record {
          store = release_reservation r.token y.store;
          pending = keep (λ q. not (text_eq q.token r.token)) y.pending;
        })

  pub data Reach (y : System) : System → Type 0 where
    here : Reach y y
    next : {u v : System} → Reach y u → Step u v → Reach y v

  pub record IsSound (y : System) : Type 0 where
    pub fits : Fits y.store
    pub held : All (λ r. Holds r.token r.bytes y.store) y.pending

HoldsToken-others :
    (token t : Text) (b : ℕ) (rs : List Reservation)
    → t ≢ token
    → HoldsToken t b rs
    → HoldsToken t b (keep (λ r. not (text_eq r.token token)) rs)
HoldsToken-others token t b [] ne h = h
HoldsToken-others token t b (r ∷ rs) ne (inl (e, f)) = ground (arith, text_eq_iff r.token token)
HoldsToken-others token t b (r ∷ rs) ne (inr h) =
    ground (arith, HoldsToken-others token t b rs ne h)

-- What `finish` leaves of the reservations: those of the other tokens at the least.
Spends-others :
    (token t : Text) (b : ℕ) (s s' : Store)
    → Spends token s s'
    → t ≢ token
    → Holds t b s
    → Holds t b (release_reservation token s')
unfolding release_reservation
Spends-others token t b s s' h ne k = elim (h.left) [
  | inl e ↦ survive (subst (HoldsToken t b) (sym e) k)
  | inr e ↦ survive (subst (HoldsToken t b) (sym e) (HoldsToken-others token t b _ ne k))
]
  where
    survive : Holds t b s' → Holds t b (release_reservation token s')
    survive k' = ground (arith, HoldsToken-others token t b s'.db.reservations ne k')

Spends-Fits :
    (token : Text) (s s' : Store) → Spends token s s' → Fits s → Fits (release_reservation token s')
unfolding release_reservation used ready_bytes reserved_bytes
Spends-Fits token s s' h f = ground (arith, drop_token-le token s'.db.reservations)

after-finally :
    {A : Type 0} (m : M A) (f : Store → Store) (s : Store) → after (finally m f s) ≡ f (after (m s))
after-finally m f s = ground arith

others : (token : Text) (r : Reservation) → not (text_eq r.token token) ≡ true → r.token ≢ token
others token r h e = ground (arith, (text_eq_iff r.token token).1 e)

module _ (d : Disk) (sha256 : List ℕ → Text) where
  pending-Holds :
      (r : Reservation) (y : System)
      → IsSound d sha256 y
      → Any (λ q. q ≡ r) y.pending
      → Holds r.token r.bytes y.store
  pending-Holds r y v m = All-any (λ q. Holds q.token q.bytes y.store) y.pending r v.held m

  -- The end of an admission that spends its reservation at the most.
  finishing-IsSound :
      {A : Type 0} (filling : M A) (r : Reservation) (y : System)
      → IsSound d sha256 y
      → Spends r.token y.store (after (filling y.store))
      → IsSound d sha256 (record {
        store = after (finally filling (release_reservation r.token) y.store);
        pending = keep (λ q. not (text_eq q.token r.token)) y.pending;
      })
  finishing-IsSound filling r y v h = record {
    fits =
        subst Fits (sym (after-finally filling (release_reservation r.token) y.store))
          (Spends-Fits r.token _ _ h v.fits);
    held =
        All-keep_imp (λ q. Holds q.token q.bytes y.store) _ _
          (λ q t k.
            subst (Holds q.token q.bytes)
              (sym (after-finally filling (release_reservation r.token) y.store))
              (Spends-others r.token q.token q.bytes _ _ h (others r.token q t) k))
          y.pending v.held;
  }

  Step-IsSound : {y z : System} → Step d sha256 y z → IsSound d sha256 y → IsSound d sha256 z
  Step-IsSound (calls now c y) v =
      let h = run_call-Shrinks d now c y.store in
      record {
        fits = Shrinks-Fits _ _ h v.fits;
        held =
            All-imp (λ r. Holds r.token r.bytes y.store) _
              (λ r k. subst (HoldsToken r.token r.bytes) (sym h.kept) k) y.pending v.held;
      }
  Step-IsSound (begins now token bytes y r s e) v =
      let h : Reserved token bytes y.store (done r s) =
        subst (Reserved token bytes y.store) e (reserve-Reserved d now token bytes y.store) in
      let (t, b, fits, _, table) = h in
      record {
        fits = fits;
        held = (
          subst (HoldsToken r.token r.bytes) (sym table) (inl (refl, refl)),
          All-imp (λ q. Holds q.token q.bytes y.store) _
              (λ q k. subst (HoldsToken q.token q.bytes) (sym table) (inr k)) y.pending v.held,
        );
      }
  Step-IsSound (is_refused now token bytes y e s refused) v =
      let h : Reserved token bytes y.store (threw e s) =
        subst (Reserved token bytes y.store) refused (reserve-Reserved d now token bytes y.store) in
      let k : Shrinks y.store s = Shrinks-of_db _ _ h.0 h.1 in
      record {
        fits = Shrinks-Fits _ _ k v.fits;
        held =
            All-imp (λ q. Holds q.token q.bytes y.store) _
              (λ q k'. subst (HoldsToken q.token q.bytes) (sym k.kept) k') y.pending v.held;
      }
  Step-IsSound (finishes now source origin owner expected r y m) v =
      finishing-IsSound (fill d sha256 now source origin owner expected r) r y v
        (fill-Spends d sha256 now source origin owner expected r y.store (pending-Holds r y v m))
  Step-IsSound (imports now chunks hash origin owner r y m) v =
      finishing-IsSound (import_file d sha256 now chunks hash r.bytes origin owner r.token) r y v
        (import_file-Spends d sha256 now chunks hash origin owner r y.store (pending-Holds r y v m))
  Step-IsSound (gives_back r y m) v =
      finishing-IsSound (pure tt) r y v
        (record { less = omega arith; same = refl; left = inl refl })

  Reach-IsSound : {y z : System} → Reach d sha256 y z → IsSound d sha256 y → IsSound d sha256 z
  Reach-IsSound here v = v
  Reach-IsSound (next r st) v = Step-IsSound st (Reach-IsSound r v)

  -- Whatever lookups, releases, transfers, commitments and closings run, and however reservations,
  -- admissions of streams and files and releases of reservations interleave with them, the bytes of
  -- the ready blobs and of the open reservations never exceed the capacity, if they did not at a
  -- start with nothing reserved by an admission; and every admission under way still has its
  -- reservation.
  pub Reach-Fits :
      {y z : System}
      → Reach d sha256 y z
      → y.pending ≡ []
      → Fits y.store
      → Fits z.store × All (λ r. Holds r.token r.bytes z.store) z.pending
  Reach-Fits {y} r e f =
      let v =
        Reach-IsSound r (record {
          fits = f;
          held = subst (All (λ q. Holds q.token q.bytes y.store)) (sym e) tt;
        }) in
      (v.fits, v.held)
