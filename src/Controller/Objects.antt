-- ===== src/Controller/Objects.antt =====
-- internal/controller: how the controllers change an object of the API server. Each kind has its own
-- copy of these functions in the sources: a finalizer is added to the object that was read, and taken
-- off, like each change of a status, from the object as the server has it, again after a conflict.
use omni_cluster_operator.Base.{
  String, Bool, true, ◌≡◌, ◌⊎◌, inl, inr, refl, ap, ◌∙◌, if◌then◌else◌, if_cases,
}
use omni_cluster_operator.Api.Meta.{Time, ObjectMeta}
use omni_cluster_operator.External.{Error, Result, ok, err, is_not_found, is_conflict}
use omni_cluster_operator.Exec.{Exec}
use omni_cluster_operator.Controller.Kube.{Objects, Api, Runtime, Key, Outcome, unless_failed}

module _ ⦃t : Runtime⦄ where
  abbrev pub has : String → ObjectMeta → Bool
  has finalizer meta = t.contains_finalizer meta.finalizers finalizer

  abbrev pub with_finalizer : String → ObjectMeta → ObjectMeta
  with_finalizer finalizer meta = record meta {
    finalizers = t.add_finalizer meta.finalizers finalizer;
  }

  abbrev pub without_finalizer : String → ObjectMeta → ObjectMeta
  without_finalizer finalizer meta = record meta {
    finalizers = t.remove_finalizer meta.finalizers finalizer;
  }

module _ {Store Item : Type 0} (objects : Objects Store Item) where
  -- One try of a change of the status, which is not written where it changes nothing.
  unfoldable pub write_changed :
      (Item → Item → Bool) → (Item → Item) → Result Item → Exec Store (Unit {0})
  write_changed same change (err e) store = (err e, store)
  write_changed same change (ok latest) store =
      if same latest (change latest)
      then (ok tt, store)
      else objects.update_status (change latest) store

  -- One try of a removal of finalizers: an object that is gone needs none.
  unfoldable pub write_stripped : (Item → Item) → Result Item → Exec Store (Unit {0})
  write_stripped strip (err e) store = (if is_not_found e then ok tt else err e, store)
  write_stripped strip (ok latest) store = objects.update (strip latest) store

module _ (api : Api) {Item : Type 0} (objects : Objects api.Store Item) where
  unfoldable pub update_changed :
      (Item → Item → Bool) → (Time → Item → Item) → Key → Exec api.Store (Unit {0})
  unfolding write_changed
  update_changed same change key =
      api.retry_on_conflict
        λ store. write_changed objects same (change (api.now store)) (objects.get key store) store

  unfoldable pub update_stripped : (Item → Item) → Key → Exec api.Store (Unit {0})
  unfolding write_stripped
  update_stripped strip key =
      api.retry_on_conflict λ store. write_stripped objects strip (objects.get key store) store

-- What `retry.RetryOnConflict` may do with a call: it ends with the answer of one try, and before that
-- come only tries that ended in a conflict.
pub data Retried {W : Type 0} (call : Exec W (Unit {0})) (p : Result (Unit {0}) × W)
    : W → Type 0 where
  settled : (w : W) → call w ≡ p → Retried call p w
  again :
      (w v : W) (e : Error)
      → call w ≡ (err e, v)
      → is_conflict e ≡ true
      → Retried call p v
      → Retried call p w

pub last_try :
    {W : Type 0} (call : Exec W (Unit {0})) (p : Result (Unit {0}) × W) (w : W)
    → Retried call p w
    → (v : W) × (call v ≡ p)
last_try call p w (settled _ h) = (w, h)
last_try call p w (again _ v e h c rest) = last_try call p v rest

-- The documented behaviour of `retry.RetryOnConflict`.
abbrev pub RetriesConflicts : Api → Type 0
RetriesConflicts api =
    (call : Exec api.Store (Unit {0})) (w : api.Store)
    → Retried call (api.retry_on_conflict call w) w

pub unless_failed-world :
    {W : Type 0} (o : Outcome) (r : Result (Unit {0})) (w : W) → (unless_failed o (r, w)).1 ≡ w
unless_failed-world o (ok _) w = refl
unless_failed-world o (err e) w = refl

module _ {Store Item : Type 0} (objects : Objects Store Item) (key : Key) (final : Store) where
  -- The change was made to the object that the server had right before, or would have changed nothing.
  pub record IsChanged (same : Item → Item → Bool) (change : Store → Item → Item) : Type 0 where
    pub before : Store
    pub latest : Item
    pub read : objects.get key before ≡ ok latest
    pub wrote :
        ((same latest (change before latest) ≡ true) × (before ≡ final))
        ⊎ (objects.update_status (change before latest) before ≡ (ok tt, final))

  write_changed-ok :
      (same : Item → Item → Bool) (change : Store → Item → Item) (before : Store) (r : Result Item)
      → objects.get key before ≡ r
      → write_changed objects same (change before) r before ≡ (ok tt, final)
      → IsChanged same change
  unfolding write_changed
  write_changed-ok same change before (err e) found h = absurd (cc (ap (λ p. p.0) h))
  write_changed-ok same change before (ok latest) found h =
      let changed = change before latest in
      record {
        before = before;
        latest = latest;
        read = found;
        wrote =
            if_cases
              (λ p.
                p ≡ (ok tt, final)
                → ((same latest changed ≡ true) × (before ≡ final))
                  ⊎ (objects.update_status changed before ≡ (ok tt, final)))
              (same latest changed) (λ s e. inl (s, ap (λ p. p.1) e)) (λ s e. inr e) h;
      }

module _ (api : Api) (retries : RetriesConflicts api) {Item : Type 0}
    (objects : Objects api.Store Item) where
  pub update_changed-IsChanged :
      (same : Item → Item → Bool) (change : Time → Item → Item) (key : Key) (store : api.Store)
      → (update_changed api objects same change key store).0 ≡ ok tt
      → IsChanged objects key
          (update_changed api objects same change key store).1
          same
          (λ s. change (api.now s))
  unfolding update_changed
  update_changed-IsChanged same change key store done =
      let (before, h) = last_try _ _ store (retries _ store) in
      let final = (update_changed api objects same change key store).1 in
      write_changed-ok objects key final same (λ s. change (api.now s)) before
        (objects.get key before) refl (h ∙ ap (λ r. (r, final)) done)
