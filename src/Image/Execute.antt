-- ===== src/Image/Execute.antt =====
-- ExecutePrune of internal/image/retention.go, against a cloud that answers as it likes.
use mathlib.Core.List.{append_assoc}
use bivouac.Prelude.{
  ◌≡◌, ◌≢◌, ◌⊎◌, inl, inr, refl, sym, ap, ◌∙◌, String, Option, none, some, List, [], ◌∷◌, ◌++◌,
  subst, arith, map, Result, ok, err,
}
use bivouac.Image.Markers.{Number, Scope}
use bivouac.Image.Eligible.{Image, Reason, ineligible}
use bivouac.Image.Retention.{PrunePlan}

-- An error of the cloud: ErrImageNotFound, or another one with its text.
pub data CloudError : Type 0 where
  image_not_found : CloudError
  cloud_failed : String → CloudError

-- GetImage and DeleteImage of provider.ImageManager.
pub record ImageManager : Type 1 where
  pub Cloud : Type 0
  pub get_image : String → Cloud → Result CloudError Image × Cloud
  pub delete_image : String → Cloud → Option CloudError × Cloud

pub data PruneError : Type 0 where
  recheck_failed delete_failed : String → String → PruneError
  changed : String → Reason → PruneError

pub record PruneResult : Type 0 where
  pub deleted : List String
  pub pending : List String
  pub failure : Option PruneError

-- IDs
abbrev pub ids : List Image → List String
ids = map (λ img. img.id)

module _ (atoi : String → Option Number) (m : ImageManager) (s : Scope) where
  open m use {Cloud}

  -- The run stops at `rest`.
  abbrev pub stop : List String → List Image → PruneError → Cloud → PruneResult × Cloud
  stop done rest e c = (record { deleted = done; pending = ids rest; failure = some e }, c)

  -- One candidate: what to go on with, or why to stop.
  unfoldable pub removed : String → Option CloudError × Cloud → Result PruneError (Unit {0}) × Cloud
  removed id (none, c) = (ok tt, c)
  removed id (some image_not_found, c) = (ok tt, c)
  removed id (some (cloud_failed text), c) = (err (delete_failed id text), c)

  unfoldable pub rechecked :
      String → Image → Option Reason → Cloud → Result PruneError (Unit {0}) × Cloud
  unfolding removed
  rechecked id current (some why) c = (err (changed id why), c)
  rechecked id current none c = removed id (m.delete_image id c)

  unfoldable pub found :
      String → Result CloudError Image × Cloud → Result PruneError (Unit {0}) × Cloud
  unfolding rechecked
  found id (err image_not_found, c) = (ok tt, c)
  found id (err (cloud_failed text), c) = (err (recheck_failed id text), c)
  found id (ok current, c) = rechecked id current (ineligible atoi current s) c

  unfoldable pub prune_one : Image → Cloud → Result PruneError (Unit {0}) × Cloud
  unfolding found
  prune_one candidate c = found candidate.id (m.get_image candidate.id c)

  unfoldable pub prune_next :
      (Cloud → PruneResult × Cloud)
      → List String
      → List Image
      → Result PruneError (Unit {0}) × Cloud
      → PruneResult × Cloud
  prune_next later done rest (ok _, c) = later c
  prune_next later done rest (err e, c) = stop done rest e c

  -- The loop, with what is deleted so far.
  unfoldable pub prune_all : List String → List Image → Cloud → PruneResult × Cloud
  unfolding prune_one prune_next
  prune_all done [] c = (record { deleted = done; pending = []; failure = none }, c)
  prune_all done (img ∷ rest) c =
      prune_next (prune_all (done ++ img.id ∷ []) rest) done (img ∷ rest) (prune_one img c)

  -- The cloud said that the image is not there; or it gave one that is still eligible in the scope, and then
  -- answered the deletion without an error, or that the image is not there.
  abbrev pub IsGone : String → Cloud → Cloud → Type 0
  IsGone id c v =
      (m.get_image id c ≡ (err image_not_found, v))
      ⊎ ((current : Image) × (u : Cloud) × (m.get_image id c ≡ (ok current, u))
          × (ineligible atoi current s ≡ none)
          × ((m.delete_image id u ≡ (none, v)) ⊎ (m.delete_image id u ≡ (some image_not_found, v))))

  -- One image after the other, from one state of the cloud to another.
  abbrev pub AreGone : List String → Cloud → Cloud → Type 0
  AreGone [] c v = c ≡ v
  AreGone (id ∷ ids) c v = (u : Cloud) × IsGone id c u × AreGone ids u v

  -- What a run reports: all that was planned is deleted or pending, in the order of the plan; what is deleted has gone,
  -- one image after the other, and nothing was asked of the cloud after them if nothing is pending.
  abbrev pub IsReport : List String → Cloud → PruneResult × Cloud → Type 0
  IsReport planned c (r, c') =
      (r.deleted ++ r.pending ≡ planned)
      × ((v : Cloud) × AreGone r.deleted c v
          × (((r.failure ≡ none) × (r.pending ≡ []) × (v ≡ c'))
              ⊎ ((e : PruneError) × (r.failure ≡ some e) × (r.pending ≢ []))))

  prune_one-IsGone :
      (img : Image) (c : Cloud) {u : Unit {0}} {v : Cloud}
      → prune_one img c ≡ (ok u, v)
      → IsGone img.id c v
  unfolding prune_one found rechecked removed
  prune_one-IsGone img c {u} {v} h = got (m.get_image img.id c) refl h
    where
      gone :
          (current : Image) (w : Cloud) (x : Option CloudError × Cloud)
          → m.get_image img.id c ≡ (ok current, w)
          → ineligible atoi current s ≡ none
          → m.delete_image img.id w ≡ x
          → removed img.id x ≡ (ok u, v)
          → IsGone img.id c v
      gone current w (none, y) read fit k e =
          let same : y ≡ v = ground (arith, e) in
          inr (current, w, read, fit, inl (k ∙ ap (λ z. (none, z)) same))
      gone current w (some image_not_found, y) read fit k e =
          let same : y ≡ v = ground (arith, e) in
          inr (current, w, read, fit, inr (k ∙ ap (λ z. (some image_not_found, z)) same))
      gone current w (some (cloud_failed text), y) read fit k e = absurd (ground (arith, e))

      checked :
          (current : Image) (w : Cloud) (o : Option Reason)
          → m.get_image img.id c ≡ (ok current, w)
          → ineligible atoi current s ≡ o
          → rechecked img.id current o w ≡ (ok u, v)
          → IsGone img.id c v
      checked current w (some why) read fit e = absurd (ground (arith, e))
      checked current w none read fit e = gone current w (m.delete_image img.id w) read fit refl e

      got :
          (x : Result CloudError Image × Cloud)
          → m.get_image img.id c ≡ x
          → found img.id x ≡ (ok u, v)
          → IsGone img.id c v
      got (err image_not_found, w) k e =
          let same : w ≡ v = ground (arith, e) in inl (k ∙ ap (λ z. (err image_not_found, z)) same)
      got (err (cloud_failed text), w) k e = absurd (ground (arith, e))
      got (ok current, w) k e = checked current w (ineligible atoi current s) k refl e

  AreGone-append :
      (a : List String) (id : String) (c u v : Cloud)
      → AreGone a c u
      → IsGone id u v
      → AreGone (a ++ id ∷ []) c v
  AreGone-append [] id c u v h k = (v, subst (λ x. IsGone id x v) (sym h) k, refl)
  AreGone-append (x ∷ a) id c u v (w, first, rest) k = (w, first, AreGone-append a id w u v rest k)

  -- The loop, begun at `c` and now at `u`.
  prune_all-IsReport :
      (done : List String) (l : List Image) (c u : Cloud)
      → AreGone done c u
      → IsReport (done ++ ids l) c (prune_all done l u)
  unfolding prune_all prune_next
  prune_all-IsReport done [] c u gone = (refl, (u, gone, inl (refl, refl, refl)))
  prune_all-IsReport done (img ∷ rest) c u gone =
      go (prune_one img u) refl (prune_all-IsReport (done ++ img.id ∷ []) rest c)
    where
      go :
          (r : Result PruneError (Unit {0}) × Cloud)
          → prune_one img u ≡ r
          → ((v : Cloud)
              → AreGone (done ++ img.id ∷ []) c v
              → IsReport
                  ((done ++ img.id ∷ []) ++ ids rest)
                  c
                  (prune_all (done ++ img.id ∷ []) rest v))
          → IsReport
              (done ++ ids (img ∷ rest))
              c
              (prune_next (prune_all (done ++ img.id ∷ []) rest) done (img ∷ rest) r)
      go (ok x, v) e later =
          subst (λ l. IsReport l c (prune_all (done ++ img.id ∷ []) rest v))
            (append_assoc done (img.id ∷ []) (ids rest))
            (later v (AreGone-append done img.id c u v gone (prune_one-IsGone img u e)))
      go (err e, v) k later = (refl, (u, gone, inr (e, refl, λ no. ground arith)))

-- ExecutePrune
unfoldable pub execute_prune :
    (String → Option Number) → (m : ImageManager) → m.Cloud → PrunePlan → PruneResult × m.Cloud
unfolding prune_all
execute_prune atoi m c plan = prune_all atoi m plan.scope [] plan.doomed c

-- Whatever the cloud answers, a prune reports the identities of the planned images in the order of
-- the plan, the deleted ones first and the pending ones after them, and nothing is pending exactly if there is
-- no error. Of each one reported as deleted, in that order, the cloud had said that it is not there, or it was
-- found eligible again and its deletion answered without an error but that it is not there.
pub execute_prune-IsReport :
    (atoi : String → Option Number) (m : ImageManager) (c : m.Cloud) (plan : PrunePlan)
    → IsReport atoi m plan.scope (ids plan.doomed) c (execute_prune atoi m c plan)
unfolding execute_prune
execute_prune-IsReport atoi m c plan = prune_all-IsReport atoi m plan.scope [] plan.doomed c c refl
