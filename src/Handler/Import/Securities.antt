-- ===== src/Handler/Import/Securities.antt =====
-- Making a security leaves the table of transactions and the counts alone.
use wealth.Prelude.{
  Bool-cases, List, Option-cases, Text, contains, inl, inr, is_empty, lookup, refl, ◌||◌, ◌≡◌,
  text_eq, nat_eq,
}
use wealth.Handler.Import.{ImportState, Incoming, create_security}

module _ {N : Type 0} (ticker_map : List (Text × Text)) where
  -- The parts of the state that `create_security` does not write.
  pub record IsUntouched (s after : ImportState N) : Type 0 where
    pub rows : after.rows ≡ s.rows
    pub next_id : after.next_id ≡ s.next_id
    pub claimed : after.claimed ≡ s.claimed
    pub imported : after.imported ≡ s.imported
    pub skipped : after.skipped ≡ s.skipped
    pub adopted : after.adopted ≡ s.adopted

  untouched : (s : ImportState N) → IsUntouched s s
  untouched s = record {
    rows = refl;
    next_id = refl;
    claimed = refl;
    imported = refl;
    skipped = refl;
    adopted = refl;
  }

  pub create_security-IsUntouched :
      (t : Incoming N) (s : ImportState N) → IsUntouched s (create_security ticker_map t s)
  unfolding create_security
  create_security-IsUntouched t s =
      let isin = t.content.security_isin in
      elim (Bool-cases (is_empty isin || contains s.seen_securities isin)) [
        | inl e ↦ rw e (untouched s)
        | inr n ↦ elim (Option-cases (lookup isin s.securities)) [
          | inl e ↦
              rw (n, e)
                (record {
                  rows = refl;
                  next_id = refl;
                  claimed = refl;
                  imported = refl;
                  skipped = refl;
                  adopted = refl;
                })
          | inr (_, e) ↦
              rw (n, e)
                (record {
                  rows = refl;
                  next_id = refl;
                  claimed = refl;
                  imported = refl;
                  skipped = refl;
                  adopted = refl;
                })
        ]
      ]
