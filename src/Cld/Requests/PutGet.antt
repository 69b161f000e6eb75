-- ===== src/Cld/Requests/PutGet.antt =====
-- msg_put against msg_get, cld/msg.c.
use hail.Base.{
  ℕ, ◌%◌, ◌^◌, ◌<◌, ◌≡◌, refl, ◌∙◌, Bool, true, false, not, ◌||◌, List, length, inl, inr, ==_refl,
  arith,
}
use hail.Cld.{Code, ok_code, db_err, get_op, Msg, get_resp, RawHandle, RawInode}
use hail.Cld.Db.{Db, Res, ok, fail, IsStore}
use hail.Cld.Lock.{Peer}
use hail.Cld.Requests.{
  Told, pass, com_read, com_write, com_directory, touched, inode_notify, inode_touch, put_body,
  msg_put, get_data, get_body, msg_get,
}
use hail.Cld.Requests.Atomic.{Passes, Passes-or, Passes-if, Passes-map, transact-Passes}

module _ (db : Db) (peer : ℕ → Peer) (sends : ℕ → Msg → Bool) (st : IsStore db) where
  -- The inode after `bytes` were put into it.
  abbrev pub with_size : ℕ → RawInode → List ℕ → RawInode
  with_size now ino bytes = touched now (record ino { size = length bytes % 2 ^ 32 })

  -- In `v` the inode has the bytes and its new record, and handles are as they were in `w`.
  abbrev HasPut : ℕ → ℕ → RawInode → List ℕ → db.World → db.World → Type 0
  HasPut now inum ino bytes w v =
      (db.data_get v inum ≡ ok bytes)
      × (db.inode_get v inum ≡ ok (with_size now ino bytes))
      × ((s f : ℕ) → db.handle_get v s f ≡ db.handle_get w s f)

  pub inode_touch-put :
      (now : ℕ) (w w' : db.World) (ino : RawInode) (told : Told)
      → inode_touch db peer sends now w ino ≡ ok (w', told)
      → db.inode_put w (touched now ino) ≡ ok w'
  unfolding inode_touch
  inode_touch-put now w w' ino told = put_cases (db.inode_put w (touched now ino)) refl
    where
      notify_cases :
          (v : db.World)
          → db.inode_put w (touched now ino) ≡ ok v
          → (r : Res Told) → inode_notify db peer sends v ino.inum false ≡ r
          → inode_touch db peer sends now w ino ≡ ok (w', told)
          → db.inode_put w (touched now ino) ≡ ok w'
      notify_cases v e (fail rc) n h = cc (rw (inode_touch, e, n) at h)
      notify_cases v e (ok told') n h = let g = rw (inode_touch, e, n) at h in e ∙ cc (g)

      put_cases :
          (r : Res db.World)
          → db.inode_put w (touched now ino) ≡ r
          → inode_touch db peer sends now w ino ≡ ok (w', told)
          → db.inode_put w (touched now ino) ≡ ok w'
      put_cases (fail rc) e h = cc (rw (inode_touch, e) at h)
      put_cases (ok v) e h = notify_cases v e (inode_notify db peer sends v ino.inum false) refl h

  touch-HasPut :
      (now inum : ℕ) (ino : RawInode) (bytes : List ℕ) (w w1 w2 : db.World) (told : Told)
      → ino.inum ≡ inum
      → db.data_put w inum bytes ≡ ok w1
      → inode_touch db peer sends now w1 (record ino { size = length bytes % 2 ^ 32 })
        ≡ ok (w2, told)
      → HasPut now inum ino bytes w w2
  unfolding touched
  touch-HasPut now inum ino bytes w w1 w2 told key put touch =
      let new = with_size now ino bytes in
      let written =
        inode_touch-put now w1 w2 (record ino { size = length bytes % 2 ^ 32 }) told touch in
      (
        st.data-inode_put w1 w2 new inum written ∙ st.data-put w w1 inum bytes put,
        rw (← key) (st.inode-put w1 w2 new written),
        λ s f.
            st.handle-inode_put w1 w2 new s f written ∙ st.handle-data_put w w1 inum bytes s f put,
      )

  put_body-HasPut :
      (now sid fh : ℕ) (h : RawHandle) (ino : RawInode) (bytes : List ℕ) (w : db.World)
      → db.handle_get w sid fh ≡ ok h
      → db.inode_get w h.inum ≡ ok ino
      → Passes (λ r. HasPut now h.inum ino bytes w r.0) (put_body db peer sends now sid fh bytes w)
  unfolding put_body
  put_body-HasPut now sid fh h ino bytes w has_h has_ino =
      let P : db.World × Told × Code → Type 0 = λ r. HasPut now h.inum ino bytes w r.0 in
      rw (has_h, put_body, has_ino)
        (Passes-if P (not (com_write h) || com_directory h) _ _ (λ _. refl)
          λ _. Passes-or P (db.data_put w h.inum bytes) db_err _ refl λ w1 put.
            Passes-or P
              (inode_touch db peer sends now w1 (record ino { size = length bytes % 2 ^ 32 }))
              db_err (λ r. pass (r.0, r.1, ok_code)) refl
              λ r touch.
                touch-HasPut now h.inum ino bytes w w1 r.0 r.1 (st.inode_key w h.inum ino has_ino)
                  put touch)

  get_body_lem :
      (xid sid fh : ℕ) (h : RawHandle) (ino : RawInode) (bytes : List ℕ) (t : db.World)
      → db.handle_get t sid fh ≡ ok h
      → com_read h ≡ true
      → db.inode_get t h.inum ≡ ok ino
      → db.data_get t h.inum ≡ ok bytes
      → ino.size ≡ length bytes
      → get_body db get_op xid sid fh t ≡ pass (get_resp xid ino bytes)
  unfolding get_body get_data
  get_body_lem xid sid fh h ino bytes t has_h reads has_ino has_data sized =
      rw (get_body, has_h, reads, has_ino, get_data, has_data, sized, ==_refl (length bytes)) refl

  msg_get-reply :
      (xid sid fh : ℕ) (w t : db.World) (me : Msg)
      → db.txn_begin w ≡ ok t
      → get_body db get_op xid sid fh t ≡ pass me
      → (msg_get db get_op xid sid fh w).1 ≡ me
  unfolding msg_get
  msg_get-reply xid sid fh w t me begun got = by_commit (db.txn_commit t) refl
    where
      by_commit : (r : Res db.World) → db.txn_commit t ≡ r → (msg_get db get_op xid sid fh w).1 ≡ me
      by_commit (fail rc) e = rw (msg_get, begun, got, e) refl
      by_commit (ok w') e = rw (msg_get, begun, got, e) refl

  -- What msg_put stored through a handle, msg_get with CMO_GET returns through any handle of the
  -- same inode that may read, in a later transaction, with the size, time and version of the
  -- inode brought up to date: where the put replied CLE_OK, the data is shorter than 2 ^ 32
  -- bytes, the later transaction begins, and the store reads back what was written.
  pub msg_put-get :
      (now xid sid fh sid2 fh2 : ℕ) (h h2 : RawHandle) (ino : RawInode) (bytes : List ℕ)
      → (w v : db.World) → db.handle_get w sid fh ≡ ok h
      → db.handle_get w sid2 fh2 ≡ ok h2
      → h2.inum ≡ h.inum
      → com_read h2 ≡ true
      → db.inode_get w h.inum ≡ ok ino
      → length bytes < 2 ^ 32
      → (msg_put db peer sends now sid fh bytes w).code ≡ ok_code
      → db.txn_begin (msg_put db peer sends now sid fh bytes w).world ≡ ok v
      → (msg_get db get_op xid sid2 fh2 (msg_put db peer sends now sid fh bytes w).world).1
        ≡ get_resp xid (with_size now ino bytes) bytes
  unfolding msg_put touched
  msg_put-get now xid sid fh sid2 fh2 h h2 ino bytes w v has_h has_h2 same_inode reads has_ino fits
        was_ok begun =
      elim (transact-Passes db (put_body db peer sends now sid fh bytes) st After w (λ t e.
        Passes-map (λ r. HasPut now h.inum ino bytes t r.0) After
          (put_body db peer sends now sid fh bytes t)
          (λ r has_put.
            (has_put.0, has_put.1, has_put.2 sid2 fh2 ∙ st.handle-begin w t sid2 fh2 e ∙ has_h2))
          (put_body-HasPut now sid fh h ino bytes t (st.handle-begin w t sid fh e ∙ has_h)
            (st.inode-begin w t h.inum e ∙ has_ino)))) [
              | inl (_, refused) ↦ cc (rw was_ok at refused)
              | inr (u, (has_data, new_ino, handles), done) ↦
                  msg_get-reply xid sid2 fh2 _ v _ begun (
                    get_body_lem xid sid2 fh2 h2 (with_size now ino bytes) bytes v
                      (st.handle-begin _ v sid2 fh2 begun
                        ∙ st.handle-commit u _ sid2 fh2 done
                        ∙ handles)
                      reads
                      (st.inode-begin _ v h2.inum begun
                        ∙ st.inode-commit u _ h2.inum done
                        ∙ rw same_inode new_ino)
                      (st.data-begin _ v h2.inum begun
                        ∙ st.data-commit u _ h2.inum done
                        ∙ rw same_inode has_data)
                      (omega (arith, fits)))
            ]
    where
      After : db.World × Told × Code → Type 0
      After r =
          (db.data_get r.0 h.inum ≡ ok bytes)
          × (db.inode_get r.0 h.inum ≡ ok (with_size now ino bytes))
          × (db.handle_get r.0 sid2 fh2 ≡ ok h2)
