-- ===== src/Mkqs/Split/Loops.antt =====
-- The loops of the partition keep its ranges, and end when all strings are read.
use parallel_string_sorting.Prelude.{
  ℕ, zero, suc, ◌+◌, ◌≤◌, ◌<◌, List, ◌==◌, ltb, leb, ◌&&◌, ◌≡◌, refl, ◌∙◌, ◌⊎◌, inl, inr, arith,
  Bool-cases,
}
use parallel_string_sorting.Strings.{Str}
use parallel_string_sorting.Mkqs.{swap, Positions, char_of, up_loop, down_loop, partition_loop}
use parallel_string_sorting.Mkqs.Split.{
  IsSplit, up_equal, up_below, down_equal, down_above, cross, char_of-swap,
}

module _ (depth v n : ℕ) (orig : List Str) where
  record UpDone (p q : Positions) : Type 0 where
    split : IsSplit depth v n orig q
    pc : q.pc ≡ p.pc
    pb : p.pb ≤ q.pb
    stopped : (q.pc < q.pb) ⊎ (v < char_of depth q.a q.pb)

  up_loop_lem :
      (rounds : ℕ) (p : Positions)
      → IsSplit depth v n orig p
      → p.pc + 1 ≤ p.pb + rounds
      → UpDone p (up_loop depth v rounds p)
  unfolding up_loop
  up_loop_lem zero p s h = record {
    split = s;
    pc = refl;
    pb = omega arith;
    stopped = inl (omega arith);
  }
  up_loop_lem (suc rounds) p s h =
      let r = char_of depth p.a p.pb in
      elim (Bool-cases (leb p.pb p.pc && leb r v)) [
        | inr stop ↦
            rw stop (record { split = s; pc = refl; pb = omega arith; stopped = ground arith })
        | inl go ↦
            let read : p.pb ≤ p.pc = ground arith in
            elim (Bool-cases (r == v)) [
              | inl e ↦
                  rw (go, e)
                    (let u =
                        up_loop_lem rounds _ (up_equal depth v n orig p s read (ground arith))
                          (omega arith) in
                      record {
                        split = u.split;
                        pc = u.pc;
                        pb = omega (arith, u.pb);
                        stopped = u.stopped;
                      })
              | inr d ↦
                  rw (go, d)
                    (let u =
                        up_loop_lem rounds _ (up_below depth v n orig p s read (ground arith))
                          (omega arith) in
                      record {
                        split = u.split;
                        pc = u.pc;
                        pb = omega (arith, u.pb);
                        stopped = u.stopped;
                      })
            ]
      ]

  record DownDone (p q : Positions) : Type 0 where
    split : IsSplit depth v n orig q
    pb : q.pb ≡ p.pb
    pc : q.pc ≤ p.pc
    kept : p.pb ≤ q.pc → char_of depth q.a p.pb ≡ char_of depth p.a p.pb
    stopped : (q.pc < q.pb) ⊎ (char_of depth q.a q.pc < v)

  down_loop_lem :
      (rounds : ℕ) (p : Positions)
      → IsSplit depth v n orig p
      → p.pc + 1 ≤ p.pb + rounds
      → DownDone p (down_loop depth v rounds p)
  unfolding down_loop
  down_loop_lem zero p s h = record {
    split = s;
    pb = refl;
    pc = omega arith;
    kept = λ l. refl;
    stopped = inl (omega arith);
  }
  down_loop_lem (suc rounds) p s h =
      let r = char_of depth p.a p.pc in
      elim (Bool-cases (leb p.pb p.pc && leb v r)) [
        | inr stop ↦ rw stop (record {
          split = s;
          pb = refl;
          pc = omega arith;
          kept = λ l. refl;
          stopped = ground arith;
        })
        | inl go ↦
            let read : p.pb ≤ p.pc = ground arith in
            elim (Bool-cases (r == v)) [
              | inl e ↦
                  let u =
                    down_loop_lem rounds _ (down_equal depth v n orig p s read (ground arith))
                      (omega (arith, s.pivot, s.left_le)) in
                  rw (go, e)
                    (record {
                      split = u.split;
                      pb = u.pb;
                      pc = omega (arith, u.pc);
                      kept =
                          λ l. u.kept l ∙ moved p s read (omega (arith, u.pc, s.pivot, s.left_le));
                      stopped = u.stopped;
                    })
              | inr d ↦
                  let u =
                    down_loop_lem rounds _ (down_above depth v n orig p s read (ground arith))
                      (omega (arith, s.pivot, s.left_le)) in
                  rw (go, d)
                    (record {
                      split = u.split;
                      pb = u.pb;
                      pc = omega (arith, u.pc);
                      kept = u.kept;
                      stopped = u.stopped;
                    })
            ]
      ]
    where
      moved :
          (p : Positions) (s : IsSplit depth v n orig p)
          → p.pb ≤ p.pc
          → p.pb < p.pc
          → char_of depth (swap p.a p.pc p.pd) p.pb ≡ char_of depth p.a p.pb
      moved p s read l = ground (
        arith,
        char_of-swap depth p.a p.pc p.pd p.pb (omega (arith, s.size, s.right_le, s.right_lt))
            (omega (arith, s.size, s.right_lt)),
        s.right_le,
      )

  -- With rounds for the strings that are not read the partition reads all.
  pub partition_loop_lem :
      (rounds : ℕ) (p : Positions)
      → IsSplit depth v n orig p
      → p.pc + 1 < p.pb + rounds
      → IsSplit depth v n orig (partition_loop depth v n rounds p)
        × ((partition_loop depth v n rounds p).pc < (partition_loop depth v n rounds p).pb)
  unfolding partition_loop
  partition_loop_lem zero p s h = absurd (omega (arith, s.unread))
  partition_loop_lem (suc rounds) p s h =
      let up = up_loop depth v n p in
      let u = up_loop_lem n p s (omega (arith, s.right_le, s.right_lt)) in
      let q = down_loop depth v n up in
      let d = down_loop_lem n up u.split (omega (arith, u.split.right_le, u.split.right_lt)) in
      elim (Bool-cases (ltb q.pc q.pb)) [
        | inl done ↦ rw done (d.split, ground arith)
        | inr more ↦
            let read : q.pb ≤ q.pc = ground arith in
            let high : v < char_of depth q.a q.pb =
              rw d.pb (ground (arith, u.stopped, d.kept (omega (arith, d.pb)), d.pb, d.pc)) in
            let low : char_of depth q.a q.pc < v = ground (arith, d.stopped) in
            rw more (
              partition_loop_lem rounds _ (cross depth v n orig q d.split read high low)
                (omega (arith, u.pc, u.pb, d.pb, d.pc, d.split.pivot, d.split.left_le)))
      ]
