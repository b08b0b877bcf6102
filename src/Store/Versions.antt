-- ===== src/Store/Versions.antt =====
-- os/store/memory.py: versions of a stored session, and saves by several writers.
use turtlemap.Prelude.{
  ℕ, ◌+◌, ◌≡◌, refl, ap, sym, ◌∙◌, Bool, true, false, Option, none, some, String, arith, ◌≢◌,
  Bool-cases, inl, inr,
}
use turtlemap.Prelude.Eq.{◌==◌, nat_eq, string_eq}
use turtlemap.Prelude.Dict.{lookup, lookup-insert}
use turtlemap.Prelude.Try.{Try, value, error}
use turtlemap.Kernel.Model.{SessionState}
use turtlemap.Context.Compress.{CompressionResult, merge_compacted_result}
use turtlemap.Store.{
  StoredSession, Store, StoreError, session_state_changed, version_of, same_version, bump, put,
  save_session_state, merged, save_context_compression_result,
}

same_version_refl : (v : Option ℕ) → same_version v v ≡ true
same_version_refl none = refl
same_version_refl (some v) = (nat_eq.decides v v).1 refl

-- saving with the version that is stored
save-current :
    (x : StoredSession) (o : Option StoredSession) (st : Store)
    → lookup x.session_id st.session_id2state ≡ o
    → version_of o ≡ x.version
    → save_session_state x st ≡ (value (bump o x), put (bump o x) st)
unfolding save_session_state
save-current x none st at e = rw at refl
save-current x (some s) st at e = rw (at, e, same_version_refl x.version) refl

-- saving with another one
save-stale :
    (x s : StoredSession) (st : Store)
    → lookup x.session_id st.session_id2state ≡ some s
    → same_version s.version x.version ≡ false
    → save_session_state x st ≡ (error session_state_changed, st)
unfolding save_session_state
save-stale x s st at e = rw (at, e) refl

lookup-put :
    (s : StoredSession) (st : Store) → lookup s.session_id (put s st).session_id2state ≡ some s
lookup-put s st =
    lookup-insert s.session_id s.session_id s st.session_id2state
    ∙ rw ((string_eq.decides s.session_id s.session_id).1 refl) refl

-- Of two writers who loaded the same version of a session, the first one's save is stored with the
-- next version, and the second one's is refused and changes nothing.
pub save-conflict :
    (x y : StoredSession) (v : ℕ) (st : Store)
    → y.session_id ≡ x.session_id
    → version_of (lookup x.session_id st.session_id2state) ≡ some v
    → x.version ≡ some v
    → y.version ≡ some v
    → (z : StoredSession) × (st' : Store) × (save_session_state x st ≡ (value z, st'))
      × (z.version ≡ some (v + 1))
      × (z.state ≡ x.state)
      × (lookup x.session_id st'.session_id2state ≡ some z)
      × (save_session_state y st' ≡ (error session_state_changed, st'))
save-conflict x y v st same stored wx wy =
    let o = lookup x.session_id st.session_id2state in
    let z = bump o x in
    let next : z.version ≡ some (v + 1) = rw (wx, stored) refl in
    let older : same_version z.version y.version ≡ false = rw (next, wy) (ground arith) in
    (
      z,
      put z st,
      save-current x o st refl (stored ∙ sym wx),
      next,
      refl,
      lookup-put z st,
      save-stale y z (put z st) (rw same (lookup-put z st)) older,
    )

lookup-put-other :
    (i : String) (s : StoredSession) (st : Store)
    → s.session_id ≢ i
    → lookup i (put s st).session_id2state ≡ lookup i st.session_id2state
lookup-put-other i s st other = elim (Bool-cases (s.session_id == i)) [
  | inl same ↦ absurd (other ((string_eq.decides s.session_id i).0 same))
  | inr off ↦ lookup-insert s.session_id i s st.session_id2state ∙ rw off refl
]

-- After a result `c` for the session `s`, of version `v`, is saved into `st`: where it could be merged, the
-- store has the session with the merged history and summary and the next version, every other session as it
-- was, and a writer who loaded the session before is refused; where it could not, nothing happened, and such
-- a writer may save.
pub data IsGuarded (s y : StoredSession) (v : ℕ) (c : CompressionResult) (st : Store)
    (r : Try StoreError Bool × Store) : Type 0 where
  merges :
      (z : StoredSession) (st' : Store)
      → r ≡ (value true, st')
      → (merge_compacted_result s.state c).0 ≡ true
      → lookup s.session_id st'.session_id2state ≡ some z
      → z.version ≡ some (v + 1)
      → z.state ≡ (merge_compacted_result s.state c).1
      → ((i : String)
          → s.session_id ≢ i
          → lookup i st'.session_id2state ≡ lookup i st.session_id2state)
      → save_session_state y st' ≡ (error session_state_changed, st')
      → IsGuarded s y v c st r
  skips :
      (z : StoredSession) (st' : Store)
      → r ≡ (value false, st)
      → (merge_compacted_result s.state c).0 ≡ false
      → save_session_state y st ≡ (value z, st')
      → z.state ≡ y.state
      → IsGuarded s y v c st r

-- After a compression result for a stored session is saved: where it can be merged, the store has
-- the session with the merged history and summary and the next version, every other session as it
-- was, and a writer who loaded the session before is refused and changes nothing; where it cannot,
-- the answer is false, the store is as it was, and such a writer may still save.
pub save_result-IsGuarded :
    (s y : StoredSession) (v : ℕ) (c : CompressionResult) (st : Store)
    → lookup s.session_id st.session_id2state ≡ some s
    → s.version ≡ some v
    → y.session_id ≡ s.session_id
    → y.version ≡ some v
    → IsGuarded s y v c st (save_context_compression_result s.session_id c st)
unfolding save_context_compression_result
save_result-IsGuarded s y v c st at ws same wy = rw at (go (merge_compacted_result s.state c) refl)
  where
    go :
        (m : Bool × SessionState)
        → merge_compacted_result s.state c ≡ m
        → IsGuarded s y v c st (merged s m st)
    go (false, x) e =
        let at' : lookup y.session_id st.session_id2state ≡ some s =
          ap (λ j. lookup j st.session_id2state) same ∙ at in
        skips (bump (some s) y) (put (bump (some s) y) st) refl (ap (λ p. p.0) e)
          (save-current y (some s) st at' (ws ∙ sym wy)) refl
    go (true, x) e =
        let w : StoredSession = record s { state = x } in
        let z : StoredSession = bump (some s) w in
        let next : z.version ≡ some (v + 1) = rw ws refl in
        let older : same_version z.version y.version ≡ false = rw (next, wy) (ground arith) in
        merges z (put z st) (rw (save-current w (some s) st at refl) refl) (ap (λ p. p.0) e)
          (lookup-put z st) next (sym (ap (λ p. p.1) e)) (λ i off. lookup-put-other i z st off)
          (save-stale y z (put z st)
            (ap (λ j. lookup j (put z st).session_id2state) same ∙ lookup-put z st) older)
