-- ===== src/Store/Updating.antt =====
-- What a reader of the database finds after `db.Update`.
use waychain_consensus.Prelude.{◌≡◌, refl, arith, is_ok, ok, err, panic, Outcome, if◌then◌else◌}
use waychain_consensus.Store.{Store, update}
use waychain_consensus.Store.Backend.{StoreError, Bolt}

module _ {ℓ} {X : Type ℓ} (bolt : Bolt) (look : bolt.Db → X) (x : X)
    (body : bolt.Db → Outcome StoreError bolt.Db) where
  look_after :
      (o : Outcome StoreError bolt.Db) (s : Store bolt)
      → body s.db ≡ o
      → ((new : bolt.Db) → body s.db ≡ ok new → look new ≡ x)
      → look (update bolt body s).1.db ≡ (if is_ok (update bolt body s).0 then x else look s.db)
  unfolding update
  look_after (ok new) s e found = ground (arith, e, found new e)
  look_after (err f) s e found = ground (arith, e)
  look_after panic s e found = ground (arith, e)

  -- Where the body leaves `x` to be found, the update does, if it succeeds.
  pub look-update :
      (s : Store bolt)
      → ((new : bolt.Db) → body s.db ≡ ok new → look new ≡ x)
      → look (update bolt body s).1.db ≡ (if is_ok (update bolt body s).0 then x else look s.db)
  look-update s found = look_after (body s.db) s refl found
