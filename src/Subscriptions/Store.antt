-- ===== src/Subscriptions/Store.antt =====
-- What resotocore/core/task/subscribers.py relies on of its `SubscriberDb` (an `EntityDb`, backed by
-- ArangoDB), as an interface, and a store that fulfils it.
use cloudkeeper.Base.{
  String, ◌≡◌, refl, Bool, not, none, some, List, [], ◌∷◌, ◌++◌, arith, inl, inr, Bool-cases,
  str_eq, str_eq_iff, if◌then◌else◌, keep,
}
use cloudkeeper.Dict.{Dict, get, put, get-put}
use cloudkeeper.Subscriptions.Data.{Subscriber}

-- {s.id: s for s in subscribers}, from a dict that is there
unfoldable pub by_id_from : List Subscriber → Dict Subscriber → Dict Subscriber
by_id_from [] d = d
by_id_from (s ∷ l) d = by_id_from l (put s.id s d)

abbrev pub by_id_of : List Subscriber → Dict Subscriber
by_id_of l = by_id_from l []

-- `update` inserts a document under its id or overwrites the one that is there; `delete` removes the
-- document with an id, if there is one; `all` lists the documents, in an order of the database's.
pub record SubscriberDb : Type 1 where
  pub State : Type 0
  pub all : State → List Subscriber
  pub update : Subscriber → State → State
  pub delete : String → State → State
  pub all-update :
      (s : Subscriber) (db : State) (k : String)
      → get k (by_id_of (all (update s db)))
        ≡ (if str_eq s.id k then some s else get k (by_id_of (all db)))
  pub all-delete :
      (id : String) (db : State) (k : String)
      → get k (by_id_of (all (delete id db)))
        ≡ (if str_eq id k then none else get k (by_id_of (all db)))

unfoldable pub other_id : String → Subscriber → Bool
other_id id s = not (str_eq s.id id)

-- A list of documents; a later document hides an earlier one with the same id.
by_id_from-append :
    (l : List Subscriber) (s : Subscriber) (d : Dict Subscriber)
    → by_id_from (l ++ s ∷ []) d ≡ put s.id s (by_id_from l d)
unfolding by_id_from
by_id_from-append [] s d = refl
by_id_from-append (x ∷ l) s d = by_id_from-append l s (put x.id x d)

pub list_all-update :
    (s : Subscriber) (l : List Subscriber) (k : String)
    → get k (by_id_of (l ++ s ∷ [])) ≡ (if str_eq s.id k then some s else get k (by_id_of l))
list_all-update s l k = rw by_id_from-append (get-put s.id k s (by_id_of l))

list_delete_from :
    (id k : String) (l : List Subscriber) (d e : Dict Subscriber)
    → get k e ≡ (if str_eq id k then none else get k d)
    → get k (by_id_from (keep (other_id id) l) e)
      ≡ (if str_eq id k then none else get k (by_id_from l d))
unfolding by_id_from other_id
list_delete_from id k [] d e h = h
list_delete_from id k (x ∷ l) d e h = elim (Bool-cases (str_eq x.id id)) [
  | inl same ↦ rw same (
      list_delete_from id k l (put x.id x d) e
        (rw (h, get-put) (ground (arith, str_eq_iff x.id id, str_eq_iff x.id k, str_eq_iff id k))))
  | inr other ↦ rw other (
      list_delete_from id k l (put x.id x d) (put x.id x e) (
        rw get-put (
          ground (
            arith,
            h,
            get-put x.id k x d,
            str_eq_iff x.id id,
            str_eq_iff x.id k,
            str_eq_iff id k,
          ))))
]

pub list_all-delete :
    (id : String) (l : List Subscriber) (k : String)
    → get k (by_id_of (keep (other_id id) l)) ≡ (if str_eq id k then none else get k (by_id_of l))
unfolding get
list_all-delete id l k = list_delete_from id k l [] [] (ground arith)

abbrev pub list_db : SubscriberDb
unfolding other_id
list_db = record {
  State = List Subscriber;
  all = λ l. l;
  update = λ s l. l ++ s ∷ [];
  delete = λ id. keep (other_id id);
  all-update = list_all-update;
  all-delete = list_all-delete;
}
