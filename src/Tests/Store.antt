-- ===== src/Tests/Store.antt =====
-- A store in memory that works as Berkeley DB documents, for runs of the code of cld/.
use hail.Base.{
  append-nil, ℕ, ◌≡◌, ◌≢◌, refl, sym, ◌∙◌, ap, Option, none, some, List, [], ◌∷◌, ◌++◌, set, ◌==◌,
  ==_refl, ne→==, ==→eq, if◌then◌else◌, inl, inr, Bool-cases,
}
use hail.Cld.{RawLock, RawHandle, RawInode}
use hail.Cld.Db.{
  Db, notfound, Res, ok, fail, remove_at, IsLockTable, Serves, ServesHandles, IsStore,
}

pub record Mem : Type 0 where
  pub locks : ℕ → List RawLock
  pub handles : ℕ → ℕ → Option RawHandle
  pub inodes : ℕ → Option RawInode
  pub contents : ℕ → Option (List ℕ)

abbrev pub write {ℓ} : {A : Type ℓ} → (ℕ → A) → ℕ → A → ℕ → A
write f k v j = if k == j then v else f j

abbrev found {ℓ} : {A : Type ℓ} → Option A → Res A
found none = fail notfound
found (some a) = ok a

abbrev found_list {ℓ} : {A : Type ℓ} → Option A → List A
found_list none = []
found_list (some a) = a ∷ []

abbrev checked : ℕ → Option RawInode → Res RawInode
checked i none = fail notfound
checked i (some ino) = if ino.inum == i then ok ino else fail notfound

abbrev pub mem_db : Db
mem_db = record {
  World = Mem;
  txn_begin = λ w. ok w;
  txn_commit = λ w. ok w;
  txn_abort = λ t. t;
  session_put = λ w s. ok w;
  session_new = λ w s. ok w;
  session_del = λ w s. ok w;
  sessions_cursor = λ w. ok tt;
  sessions_scan = λ w. [];
  sessions_end = λ w. notfound;
  handle_get = λ w s f. found (w.handles s f);
  handle_put = λ w h.
      ok (record w { handles = write w.handles h.sid (write (w.handles h.sid) h.fh (some h)) });
  handle_del = λ w s f. ok (record w { handles = write w.handles s (write (w.handles s) f none) });
  inode_get = λ w i. checked i (w.inodes i);
  inode_put = λ w ino. ok (record w { inodes = write w.inodes ino.inum (some ino) });
  inode_del = λ w i. ok (record w { inodes = write w.inodes i none });
  data_get = λ w i. found (w.contents i);
  data_put = λ w i bytes. ok (record w { contents = write w.contents i (some bytes) });
  data_del = λ w i. ok (record w { contents = write w.contents i none });
  inode_get_byname = λ w name. checked 7 (w.inodes 7);
  handles_cursor = λ w. ok tt;
  handles_close = λ w. ok tt;
  handles_from = λ w sid. found_list (w.handles sid 2);
  handles_end = λ w. notfound;
  handle_cur_del =
      λ w h. ok (record w { handles = write w.handles h.sid (write (w.handles h.sid) h.fh none) });
  handle_idx_cursor = λ w. ok tt;
  handle_idx_scan = λ w i. [];
  handle_idx_del = λ w i. ok w;
  lock_cursor = λ w. ok tt;
  lock_close = λ w. ok tt;
  lock_dups = λ w k. w.locks k;
  lock_end = λ w k. notfound;
  lock_del_at = λ w k i. ok (record w { locks = write w.locks k (remove_at (w.locks k) i) });
  lock_put_at = λ w k i l. ok (record w { locks = write w.locks k (set (w.locks k) i l) });
  lock_put = λ w k l. ok (record w { locks = write w.locks k (w.locks k ++ l ∷ []) });
}

result_of : {w w' : Mem} → ok w ≡ ok w' → w' ≡ w
result_of e = cc

write-here {ℓ} : {A : Type ℓ} (f : ℕ → A) (k : ℕ) (v : A) → write f k v k ≡ v
write-here f k v = rw (==_refl k) refl

write-there {ℓ} : {A : Type ℓ} (f : ℕ → A) (k j : ℕ) (v : A) → k ≢ j → write f k v j ≡ f j
write-there f k j v ne = rw (ne→== k j ne) refl

checked-inum : (i : ℕ) (o : Option RawInode) (ino : RawInode) → checked i o ≡ ok ino → ino.inum ≡ i
checked-inum i none ino h = cc
checked-inum i (some ino') ino h = elim (Bool-cases (ino'.inum == i)) [
  | inl hit ↦
      let same : ino' ≡ ino = cc (rw hit at h) in
      ap (λ x. x.inum) (sym same) ∙ ==→eq ino'.inum i hit
  | inr miss ↦ cc (rw miss at h)
]

pub mem_db-IsLockTable : IsLockTable mem_db
mem_db-IsLockTable = record {
  dups-del_at = λ w w' k i h.
      ap (λ x. x.locks k) (result_of h) ∙ write-here w.locks k (remove_at (w.locks k) i);
  dups-del_at_ne = λ w w' k i j h ne.
      ap (λ x. x.locks j) (result_of h) ∙ write-there w.locks k j (remove_at (w.locks k) i) ne;
  dups-put_at = λ w w' k i l h.
      ap (λ x. x.locks k) (result_of h) ∙ write-here w.locks k (set (w.locks k) i l);
  dups-put_at_ne = λ w w' k i j l h ne.
      ap (λ x. x.locks j) (result_of h) ∙ write-there w.locks k j (set (w.locks k) i l) ne;
  dups-put = λ w w' k l h. (
    w.locks k,
    [],
    sym (append-nil (w.locks k)),
    ap (λ x. x.locks k) (result_of h) ∙ write-here w.locks k (w.locks k ++ l ∷ []),
  );
  dups-put_ne = λ w w' k j l h ne.
      ap (λ x. x.locks j) (result_of h) ∙ write-there w.locks k j (w.locks k ++ l ∷ []) ne;
}

pub mem_db-Serves : Serves mem_db
mem_db-Serves = record {
  opens = λ w. refl;
  closes = λ w. refl;
  ends = λ w k. refl;
  deletes = λ w k i h. (record w { locks = write w.locks k (remove_at (w.locks k) i) }, refl);
}

pub mem_db-ServesHandles : ServesHandles mem_db
mem_db-ServesHandles = record {
  opens = λ w. refl;
  closes = λ w. refl;
  ends = λ w. refl;
  deletes = λ w h.
      (record w { handles = write w.handles h.sid (write (w.handles h.sid) h.fh none) }, refl);
}

pub mem_db-IsStore : IsStore mem_db
mem_db-IsStore = record {
  abort-begin = λ w t h. result_of h;
  dups-begin = λ w t k h. ap (λ x. x.locks k) (result_of h);
  dups-commit = λ t w k h. ap (λ x. x.locks k) (result_of h);
  dups-cur_del = λ w w' h k e. ap (λ x. x.locks k) (result_of e);
  dups-session_del = λ w w' sid k e. ap (λ x. x.locks k) (result_of e);
  handle-begin = λ w t s f h. ap (λ x. found (x.handles s f)) (result_of h);
  handle-commit = λ t w s f h. ap (λ x. found (x.handles s f)) (result_of h);
  inode-begin = λ w t i h. ap (λ x. checked i (x.inodes i)) (result_of h);
  inode-commit = λ t w i h. ap (λ x. checked i (x.inodes i)) (result_of h);
  data-begin = λ w t i h. ap (λ x. found (x.contents i)) (result_of h);
  data-commit = λ t w i h. ap (λ x. found (x.contents i)) (result_of h);
  byname-begin = λ w t name h. ap (λ x. checked 7 (x.inodes 7)) (result_of h);
  inode_key = λ w i ino h. checked-inum i (w.inodes i) ino h;
  inode-put = λ w w' ino h.
      ap (λ x. checked ino.inum (x.inodes ino.inum)) (result_of h)
      ∙ rw (write-here w.inodes ino.inum (some ino), ==_refl ino.inum) refl;
  handle-inode_put = λ w w' ino s f h. ap (λ x. found (x.handles s f)) (result_of h);
  data-inode_put = λ w w' ino i h. ap (λ x. found (x.contents i)) (result_of h);
  data-put = λ w w' i bytes h.
      ap (λ x. found (x.contents i)) (result_of h) ∙ rw (write-here w.contents i (some bytes)) refl;
  handle-put = λ w w' h e.
      ap (λ x. found (x.handles h.sid h.fh)) (result_of e)
      ∙ rw
          (
            write-here w.handles h.sid (write (w.handles h.sid) h.fh (some h)),
            write-here (w.handles h.sid) h.fh (some h),
          )
          refl;
  handle-session_put = λ w w' sess s f e. ap (λ x. found (x.handles s f)) (result_of e);
  handle-data_put = λ w w' i bytes s f h. ap (λ x. found (x.handles s f)) (result_of h);
}
