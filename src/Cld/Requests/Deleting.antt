-- ===== src/Cld/Requests/Deleting.antt =====
-- What msg_del of cld/msg.c leaves in the store, for each reply.
use hail.Base.{
  ℕ, ◌%◌, ◌^◌, ◌≡◌, ◌⊎◌, refl, sym, ◌∙◌, Bool, true, false, not, ◌||◌, Option, none, some, List, [],
  ◌∷◌, ◌++◌, length, ltb, inl, inr, Bool-cases,
}
use hail.Cld.{Code, ok_code, db_err, name_inval, inode_inval, RawInode, Msg}
use hail.Cld.Db.{Db, Rc, notfound, keyexist, Res, ok, fail, IsStore}
use hail.Cld.Dir.{valid_inode_name, pathname_parse, dirdata_delete}
use hail.Cld.Lock.{Peer}
use hail.Cld.Requests.{Told, pass, or_code, inode_notify, inode_touch}
use hail.Cld.Requests.Atomic.{
  is_done, Passes, Passes-or, Passes-if, Passes-then, Passes-map, transact-Passes,
}
use hail.Cld.Requests.PutGet.{inode_touch-put}
use hail.Cld.Requests.Opening.{Any, after_told-Passes}
use hail.Cld.Requests.Naming.{
  after_told, deleted, or_name, or_db_err, empty_dir, check_empty, is_dir, unlink, del_body,
  msg_del,
}

deleted-Passes : {W : Type 0} (w : W) (r : Res W) → Passes Any (deleted w r)
unfolding deleted
deleted-Passes w (ok w') = tt
deleted-Passes w (fail notfound) = tt
deleted-Passes w (fail keyexist) = refl
deleted-Passes w (fail (Rc.other n)) = refl

or_name-Passes :
    {A : Type 0} (r : Res A) (c : Code) → is_done c ≡ false → Passes (λ a. r ≡ ok a) (or_name r c)
unfolding or_name
or_name-Passes (ok a) c q = refl
or_name-Passes (fail notfound) c q = q
or_name-Passes (fail keyexist) c q = refl
or_name-Passes (fail (Rc.other n)) c q = refl

or_db_err-Passes : {A : Type 0} (o : Option A) → Passes (λ a. o ≡ some a) (or_db_err o)
unfolding or_db_err
or_db_err-Passes (some a) = refl
or_db_err-Passes none = refl

empty_dir-Passes : (r : Res (List ℕ)) → Passes Any (empty_dir r)
unfolding empty_dir
empty_dir-Passes (ok []) = tt
empty_dir-Passes (ok (b ∷ bs)) = refl
empty_dir-Passes (fail notfound) = tt
empty_dir-Passes (fail keyexist) = refl
empty_dir-Passes (fail (Rc.other n)) = refl

check_empty-Passes : (ino : RawInode) (r : Res (List ℕ)) → Passes Any (check_empty ino r)
unfolding check_empty
check_empty-Passes ino r = Passes-if Any (is_dir ino) _ _ (λ _. empty_dir-Passes r) (λ _. tt)

module _ (db : Db) (peer : ℕ → Peer) (sends : ℕ → Msg → Bool) (now : ℕ) (st : IsStore db) where
  -- The data of inode `dir` was `entries` and is `entries` without the entry of `base`.
  abbrev pub Unlinked : List ℕ → List ℕ → ℕ → db.World → Type 0
  Unlinked base entries dir w =
      (entries' : List ℕ) × (dirdata_delete entries base ≡ some entries')
      × (db.data_get w dir ≡ ok entries')

  unlink-Unlinked :
      (base entries : List ℕ) (parent ino : RawInode) (w : db.World)
      → Passes
          (λ r. Unlinked base entries parent.inum r.0)
          (unlink db peer sends now base entries parent ino w)
  unfolding unlink
  unlink-Unlinked base entries parent ino w =
      let P : db.World × Told → Type 0 = λ r. Unlinked base entries parent.inum r.0 in
      Passes-then P (λ w1. db.inode_del w ino.inum ≡ ok w1)
        (or_name (db.inode_del w ino.inum) inode_inval) _
        (or_name-Passes (db.inode_del w ino.inum) inode_inval refl)
        λ w1 _.
          Passes-then P Any (deleted w1 (db.data_del w1 ino.inum)) _
            (deleted-Passes w1 (db.data_del w1 ino.inum))
            λ w2 _.
              Passes-then P Any (deleted w2 (db.handle_idx_del w2 ino.inum)) _
                (deleted-Passes w2 (db.handle_idx_del w2 ino.inum))
                λ w3 _.
                  Passes-then P (λ e. dirdata_delete entries base ≡ some e)
                    (or_db_err (dirdata_delete entries base)) _
                    (or_db_err-Passes (dirdata_delete entries base))
                    λ entries' cut.
                      Passes-or P (db.data_put w3 parent.inum entries') db_err _ refl λ w4 put.
                        touch_last entries' cut w3 w4 put
                          (inode_touch db peer sends now w4
                            (record parent { size = length entries' % 2 ^ 32 }))
                          refl
    where
      touch_last :
          (entries' : List ℕ)
          → dirdata_delete entries base ≡ some entries'
          → (w3 w4 : db.World) → db.data_put w3 parent.inum entries' ≡ ok w4
          → (r : Res (db.World × Told))
          → inode_touch db peer sends now w4 (record parent { size = length entries' % 2 ^ 32 }) ≡ r
          → Passes (λ x. Unlinked base entries parent.inum x.0) (or_code r db_err)
      touch_last entries' cut w3 w4 put (fail rc) touch = refl
      touch_last entries' cut w3 w4 put (ok (w5, told)) touch = (
        entries',
        cut,
        st.data-inode_put w4 w5 _ parent.inum
              (inode_touch-put db peer sends st now w4 w5 _ told touch)
            ∙ st.data-put w3 w4 parent.inum entries' put,
      )

  -- What a deletion of `name` did to the directory that the name stands in, as it was in `w`.
  abbrev pub Removed : List ℕ → db.World → db.World → Type 0
  Removed name w w' =
      (parent : RawInode) × (entries : List ℕ) × (db.inode_get_byname w (pathname_parse name).0
        ≡ ok parent)
      × (db.data_get w parent.inum ≡ ok entries)
      × Unlinked (pathname_parse name).1 entries parent.inum w'

  del_body-Removed :
      (name : List ℕ) (w : db.World)
      → Passes (λ r. Removed name w r.0 × (r.2 ≡ ok_code)) (del_body db peer sends now name w)
  unfolding del_body
  del_body-Removed name w =
      let P : db.World × Told × Code → Type 0 = λ r. Removed name w r.0 × (r.2 ≡ ok_code) in
      let base = (pathname_parse name).1 in
      Passes-or P (db.inode_get_byname w (pathname_parse name).0) db_err _ refl λ parent has_parent.
        Passes-or P (db.data_get w parent.inum) db_err _ refl λ entries has_entries.
          Passes-then P (λ ino. db.inode_get_byname w name ≡ ok ino)
            (or_name (db.inode_get_byname w name) name_inval) _
            (or_name-Passes (db.inode_get_byname w name) name_inval refl)
            λ ino _.
              Passes-then P Any (check_empty ino (db.data_get w ino.inum)) _
                (check_empty-Passes ino (db.data_get w ino.inum))
                λ _ _.
                  Passes-or P (inode_notify db peer sends w ino.inum true) db_err _ refl λ told _.
                    Passes-then P (λ r. Unlinked base entries parent.inum r.0)
                      (after_told told (unlink db peer sends now base entries parent ino w))
                      (λ r. pass (r.0, told ++ r.1, ok_code))
                      (after_told-Passes {A = db.World × Told}
                        (λ r. Unlinked base entries parent.inum r.0) told
                        (unlink db peer sends now base entries parent ino w)
                        (unlink-Unlinked base entries parent ino w))
                      λ r gone. ((parent, entries, has_parent, has_entries, gone), refl)

  -- Either msg_del replies CLE_OK and the data of the directory that the name stands in, which
  -- was there, has lost the entry of the base name, or it refuses and the store is what it was:
  -- on a store that works as documented.
  pub msg_del-Removed :
      (name : List ℕ) (w : db.World)
      → ((msg_del db peer sends now name w).code ≡ ok_code)
          × Removed name w (msg_del db peer sends now name w).world
        ⊎ (is_done (msg_del db peer sends now name w).code ≡ false)
          × ((msg_del db peer sends now name w).world ≡ w)
  unfolding msg_del
  msg_del-Removed name w = elim (Bool-cases (not (valid_inode_name name) || ltb (length name) 2)) [
    | inl bad ↦ rw (msg_del, bad) (inr (refl, refl))
    | inr good ↦
        rw (msg_del, good)
          (elim (transact-Passes db (del_body db peer sends now name) st
            (λ r. Removed name w r.0 × (r.2 ≡ ok_code)) w
            (λ t begun.
              Passes-map (λ r. Removed name t r.0 × (r.2 ≡ ok_code))
                (λ r. Removed name w r.0 × (r.2 ≡ ok_code)) _
                (λ r has. (at_start t begun r.0 has.0, has.1)) (del_body-Removed name t))) [
                  | inl (same, refused) ↦ inr (refused, same)
                  | inr (t', (has, was_ok), done) ↦ inl (was_ok, committed t' _ done has)
                ])
  ]
    where
      at_start :
          (t : db.World)
          → db.txn_begin w ≡ ok t
          → (v : db.World) → Removed name t v
          → Removed name w v
      at_start t begun v (parent, entries, has_parent, has_entries, gone) = (
        parent,
        entries,
        sym (st.byname-begin w t (pathname_parse name).0 begun) ∙ has_parent,
        sym (st.data-begin w t parent.inum begun) ∙ has_entries,
        gone,
      )

      committed : (t v : db.World) → db.txn_commit t ≡ ok v → Removed name w t → Removed name w v
      committed t v done (parent, entries, has_parent, has_entries, (entries', cut, has)) = (
        parent,
        entries,
        has_parent,
        has_entries,
        (entries', cut, st.data-commit t v parent.inum done ∙ has),
      )
