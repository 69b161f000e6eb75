-- ===== src/Cld/Requests/Atomic.antt =====
-- The transaction around the handlers of cld/msg.c.
use hail.Base.{◌≡◌, ◌⊎◌, refl, Bool, true, false, inl, inr, if◌then◌else◌}
use hail.Cld.{Code, ok_code, lock_pending}
use hail.Cld.Db.{Db, Res, ok, fail, IsStore}
use hail.Cld.Requests.{Told, Out, pass, stop, or_code, ◌then_do◌, Answer, transact}

-- CLE_OK and CLE_LOCK_PENDING, the codes of a request that was carried out.
abbrev pub is_done : Code → Bool
is_done ok_code = true
is_done lock_pending = true
is_done _ = false

-- What a part of a handler leaves holds, if it goes on; otherwise its code is a refusal.
abbrev pub Passes {ℓ} : {A : Type ℓ} → (A → Type 0) → Out A → Type 0
Passes P (pass a) = P a
Passes P (stop told c) = is_done c ≡ false

module _ {ℓ} {A : Type ℓ} (P : A → Type 0) where
  pub Passes-or {λ'} :
      {B : Type λ'} (r : Res B) (c : Code) (f : B → Out A)
      → is_done c ≡ false
      → ((b : B) → r ≡ ok b → Passes P (f b))
      → Passes P (or_code r c then_do f)
  Passes-or (fail rc) c f q h = q
  Passes-or (ok b) c f q h = h b refl

  pub Passes-if :
      (b : Bool) (x y : Out A)
      → (b ≡ true → Passes P x)
      → (b ≡ false → Passes P y)
      → Passes P (if b then x else y)
  Passes-if true x y h k = h refl
  Passes-if false x y h k = k refl

  pub Passes-map : (Q : A → Type 0) (o : Out A) → ((a : A) → P a → Q a) → Passes P o → Passes Q o
  Passes-map Q (pass a) f h = f a h
  Passes-map Q (stop told c) f h = h

  pub Passes-then {λ'} :
      {B : Type λ'} (Q : B → Type 0) (o : Out B) (f : B → Out A)
      → Passes Q o
      → ((b : B) → Q b → Passes P (f b))
      → Passes P (o then_do f)
  Passes-then Q (pass b) f q h = h b q
  Passes-then Q (stop told c) f q h = q

-- The two ways a handler ends: it refuses and the store is as it was, or what its body passed was
-- committed with the reply.
module _ (db : Db) (body : db.World → Out (db.World × Told × Code)) where
  abbrev pub Refused : Answer db.World → db.World → Type 0
  Refused a w = (a.world ≡ w) × (is_done a.code ≡ false)

  abbrev pub Committed : (db.World × Told × Code → Type 0) → Answer db.World → Type 0
  Committed P a = (t' : db.World) × P (t', a.told, a.code) × (db.txn_commit t' ≡ ok a.world)

  pub transact-Passes :
      IsStore db
      → (P : db.World × Told × Code → Type 0) (w : db.World)
      → ((t : db.World) → db.txn_begin w ≡ ok t → Passes P (body t))
      → Refused (transact db body w) w ⊎ Committed P (transact db body w)
  unfolding transact
  transact-Passes st P w h = begin_cases (db.txn_begin w) refl
    where
      commit_cases :
          (t t' : db.World) (told : Told) (c : Code)
          → db.txn_begin w ≡ ok t
          → body t ≡ pass (t', told, c)
          → (r : Res db.World) → db.txn_commit t' ≡ r
          → Refused (transact db body w) w ⊎ Committed P (transact db body w)
      commit_cases t t' told c e b (fail rc) k = inl (rw (transact, e, b, k) (refl, refl))
      commit_cases t t' told c e b (ok w') k =
          inr (t', rw (transact, e, b, k) (rw b at (h t e)), rw (transact, e, b, k) refl)

      body_cases :
          (t : db.World)
          → db.txn_begin w ≡ ok t
          → (o : Out (db.World × Told × Code)) → body t ≡ o
          → Refused (transact db body w) w ⊎ Committed P (transact db body w)
      body_cases t e (stop told c) b =
          inl (rw (transact, e, b) (st.abort-begin w t e, rw b at (h t e)))
      body_cases t e (pass (t', told, c)) b = commit_cases t t' told c e b (db.txn_commit t') refl

      begin_cases :
          (r : Res db.World)
          → db.txn_begin w ≡ r
          → Refused (transact db body w) w ⊎ Committed P (transact db body w)
      begin_cases (fail rc) e = inl (rw (transact, e) (refl, refl))
      begin_cases (ok t) e = body_cases t e (body t) refl
