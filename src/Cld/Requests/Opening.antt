-- ===== src/Cld/Requests/Opening.antt =====
-- What msg_open and msg_del of cld/msg.c leave in the store, for each reply.
use hail.Base.{
  ℕ, ◌+◌, ◌%◌, ◌^◌, ◌≡◌, ◌⊎◌, refl, ◌∙◌, Bool, true, false, not, ◌&&◌, ◌||◌, Option, none, some,
  List, ◌++◌, length, ltb, inl, inr,
}
use hail.Cld.{Code, ok_code, db_err, RawHandle, RawInode, RawSession, Msg}
use hail.Cld.Db.{Db, Rc, notfound, keyexist, Res, ok, fail, IsStore}
use hail.Cld.Dir.{valid_inode_name, pathname_parse, dirdata_append}
use hail.Cld.Lock.{Peer}
use hail.Cld.Requests.{Told, Out, pass, stop, inode_touch}
use hail.Cld.Requests.Atomic.{is_done, Passes, Passes-or, Passes-if, Passes-then, transact-Passes}
use hail.Cld.Requests.PutGet.{inode_touch-put}
use hail.Cld.Requests.Naming.{
  or_empty, after_told, create_inode, opened, open_inode, open_handle, open_body, msg_open, com_dir,
  com_create, com_excl, is_dir, same_bool, inode_mem,
}

abbrev pub Any {ℓ} : {A : Type ℓ} → A → Type 0
Any a = Unit

or_empty-Passes : (r : Res (List ℕ)) → Passes Any (or_empty r)
unfolding or_empty
or_empty-Passes (ok bytes) = tt
or_empty-Passes (fail notfound) = tt
or_empty-Passes (fail keyexist) = refl
or_empty-Passes (fail (Rc.other n)) = refl

pub after_told-Passes {ℓ} :
    {A : Type ℓ} (P : A → Type 0) (told : Told) (o : Out A)
    → Passes P o
    → Passes P (after_told told o)
unfolding after_told
after_told-Passes P told (pass a) h = h
after_told-Passes P told (stop more c) h = h

module _ (db : Db) (peer : ℕ → Peer) (sends : ℕ → Msg → Bool) (now : ℕ) where
  create_inode-Passes :
      (name : List ℕ) (mode : ℕ) (free : Option ℕ) (w : db.World)
      → Passes Any (create_inode db peer sends now name mode free w)
  unfolding create_inode
  create_inode-Passes name mode none w = refl
  create_inode-Passes name mode (some inum) w =
      Passes-or Any (db.inode_get_byname w (pathname_parse name).0) db_err _ refl λ parent _.
        Passes-then Any Any (or_empty (db.data_get w parent.inum)) _
          (or_empty-Passes (db.data_get w parent.inum))
          λ entries _.
            let entries' = dirdata_append entries (pathname_parse name).1 in
            Passes-or Any (db.data_put w parent.inum entries') db_err _ refl λ w1 _.
              Passes-or Any
                (inode_touch db peer sends now w1
                  (record parent { size = length entries' % 2 ^ 32 }))
                db_err (λ r. pass (r.0, r.1, inode_mem now name (com_dir mode) inum, true)) refl
                λ r _. tt

  opened-Passes :
      (name : List ℕ) (mode : ℕ) (free : Option ℕ) (w : db.World) (r : Res RawInode)
      → Passes Any (opened db peer sends now name mode free w r)
  unfolding opened
  opened-Passes name mode free w (fail notfound) =
      Passes-if Any (com_create mode) _ _ (λ _. create_inode-Passes name mode free w) (λ _. refl)
  opened-Passes name mode free w (fail keyexist) = refl
  opened-Passes name mode free w (fail (Rc.other n)) = refl
  opened-Passes name mode free w (ok ino) =
      Passes-if Any (com_create mode && com_excl mode) _ _ (λ _. refl)
        λ _. Passes-if Any (same_bool (com_dir mode) (is_dir ino)) _ _ (λ _. tt) (λ _. refl)

  open_inode-Passes :
      (name : List ℕ) (mode : ℕ) (free : Option ℕ) (w : db.World)
      → Passes Any (open_inode db peer sends now name mode free w)
  unfolding open_inode
  open_inode-Passes name mode free w =
      Passes-if Any (not (valid_inode_name name) || (com_create mode && ltb (length name) 2)) _ _
        (λ _. refl) λ _. opened-Passes name mode free w (db.inode_get_byname w name)

  -- The handle that the session would get.
  abbrev pub Handle : RawSession → ℕ → ℕ → db.World → Type 0
  Handle sess mode events w =
      (inum : ℕ) × (db.handle_get w sess.sid sess.next_fh
        ≡ ok (record {
          sid = sess.sid;
          fh = sess.next_fh;
          inum = inum;
          mode = mode % 2 ^ 32;
          events = events % 2 ^ 32;
        }))

  module _ (st : IsStore db) (sess : RawSession) (mode events : ℕ) where
    abbrev Opened : db.World × Told × Code → Type 0
    Opened r = Handle sess mode events r.0 × (r.2 ≡ ok_code)

    open_handle-Opened :
        (r : db.World × Told × RawInode × Bool)
        → Passes Opened (open_handle db peer sends now sess mode events r)
    unfolding open_handle
    open_handle-Opened (w, told, ino, created) =
        let h : RawHandle = record {
          sid = sess.sid;
          fh = sess.next_fh;
          inum = ino.inum;
          mode = mode % 2 ^ 32;
          events = events % 2 ^ 32;
        } in
        let sess' : RawSession = record sess { next_fh = (sess.next_fh + 1) % 2 ^ 64 } in
        after_told-Passes Opened told _ (
          Passes-or Opened (db.handle_put w h) db_err _ refl λ w1 put.
            Passes-if Opened created _ _
              (λ _. Passes-or Opened (inode_touch db peer sends now w1 ino) db_err _ refl λ r touch.
                after_told-Passes Opened r.1 _ (
                  Passes-or Opened (db.session_put r.0 sess') db_err
                    (λ w2. pass (w2, told ++ r.1, ok_code)) refl
                    λ w2 saved. (
                      (
                        ino.inum,
                        st.handle-session_put r.0 w2 sess' sess.sid sess.next_fh saved
                            ∙ st.handle-inode_put w1 r.0 _ sess.sid sess.next_fh
                                (inode_touch-put db peer sends st now w1 r.0 ino r.1 touch)
                            ∙ st.handle-put w w1 h put,
                      ),
                      refl,
                    )))
              (λ _.
                Passes-or Opened (db.session_put w1 sess') db_err (λ w2. pass (w2, told, ok_code))
                  refl
                  λ w2 saved. (
                    (
                      ino.inum,
                      st.handle-session_put w1 w2 sess' sess.sid sess.next_fh saved
                          ∙ st.handle-put w w1 h put,
                    ),
                    refl,
                  )))

    -- Either msg_open replies CLE_OK and the store has the session's new handle under its
    -- next_fh, on some inode, with the mode and events that were asked for, or it refuses and the
    -- store is what it was: on a store that works as documented.
    pub msg_open-Handle :
        (name : List ℕ) (free : Option ℕ) (w : db.World)
        → ((msg_open db peer sends now sess name mode events free w).code ≡ ok_code)
            × Handle sess mode events
                (msg_open db peer sends now sess name mode events free w).world
          ⊎ (is_done (msg_open db peer sends now sess name mode events free w).code ≡ false)
            × ((msg_open db peer sends now sess name mode events free w).world ≡ w)
    unfolding msg_open open_body
    msg_open-Handle name free w =
        elim (transact-Passes db (open_body db peer sends now sess name mode events free) st Opened
          w
          (λ t _.
            Passes-then Opened Any (open_inode db peer sends now name mode free t) _
              (open_inode-Passes name mode free t) (λ r _. open_handle-Opened r))) [
                | inl (same, refused) ↦ inr (refused, same)
                | inr (t', ((inum, has), was_ok), done) ↦
                    inl (was_ok, (inum, st.handle-commit t' _ sess.sid sess.next_fh done ∙ has))
              ]
