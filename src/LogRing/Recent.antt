-- ===== src/LogRing/Recent.antt =====
-- lib/ff_core/log.cpp: the log lines as a list, newest first.
use formation_flight.Prelude.{
  ◌⊎◌, inl, inr, ℕ, ◌+◌, ◌<◌, ◌≤◌, ◌≡◌, refl, ap, ◌∙◌, List, ◌∷◌, get_or, set, length, length-set,
  take, arith, ltb, true, false, Bool, if◌then◌else◌, u32,
}
use formation_flight.Prelude.Newest.{get_or-set, get_or-set_ne, entries_from, entries_from-newest}
use formation_flight.LogRing.{
  LogEntry, LogRing, LogLevel, blank_line, store_line, line_of, line_at, level_rank, add_line,
  ff_log, is_warn, is_error, echo,
}

module _ {W : Type 0} where
  pub record WellFormed (r : LogRing W) : Type 0 where
    pub room : length r.entries ≡ 48
    pub inside : r.head < 48
    pub counted : r.count ≤ 48

  -- The lines that a reader sees.
  abbrev pub recent : LogRing W → List LogEntry
  recent r = entries_from (line_at r) 0 r.count

  store_line-WellFormed :
      (e : LogEntry) (r : LogRing W) → WellFormed r → WellFormed (store_line e r)
  unfolding store_line
  store_line-WellFormed e r w = record {
    room = length-set r.entries r.head e ∙ w.room;
    inside = omega arith;
    counted = ground (arith, w.counted);
  }

  line_at-store_line_newest :
      (e : LogEntry) (r : LogRing W) → WellFormed r → line_at (store_line e r) 0 ≡ e
  unfolding store_line line_at
  line_at-store_line_newest e r w =
      ap (λ i. get_or (set r.entries r.head e) i blank_line) (omega (arith, w.inside))
      ∙ get_or-set r.entries r.head e blank_line (omega (arith, w.inside, w.room))

  line_at-store_line_older :
      (e : LogEntry) (r : LogRing W) (i : ℕ)
      → WellFormed r
      → i < 47
      → line_at (store_line e r) (i + 1) ≡ line_at r i
  unfolding store_line line_at
  line_at-store_line_older e r i w h =
      get_or-set_ne r.entries r.head _ e blank_line (omega (arith, w.inside))
      ∙ ap (λ j. get_or r.entries j blank_line) (omega (arith, w.inside))

  recent-store_line :
      (e : LogEntry) (r : LogRing W)
      → WellFormed r
      → recent (store_line e r) ≡ take 48 (e ∷ recent r)
  unfolding store_line
  recent-store_line e r w =
      entries_from-newest (line_at r) (line_at (store_line e r)) 47 r.count e
        (line_at-store_line_newest e r w) (λ k h. line_at-store_line_older e r k w h) w.counted

  -- What logging does, of a level and a text, between two states.
  pub IsLogged : LogLevel → List ℕ → LogRing W × W → LogRing W × W → Type 0
  IsLogged level text (r, w) (r', w') =
      ((level_rank level < level_rank r.min_level) × (r' ≡ r) × (w' ≡ w))
      ⊎ ((level_rank r.min_level ≤ level_rank level)
          × (recent r' ≡ take 48 (line_of r level text w ∷ recent r))
          × (r'.total ≡ u32 (r.total + 1))
          × (r'.warnings ≡ (if is_warn level then u32 (r.warnings + 1) else r.warnings))
          × (r'.errors ≡ (if is_error level then u32 (r.errors + 1) else r.errors))
          × WellFormed r'
          × (w' ≡ echo r.sink (line_of r level text w) w))

  -- A line below the least level changes nothing. Any other is put in front of those that a reader
  -- sees, the oldest falls out when there were 48, the counters since boot count it, and the sink gets
  -- it as it is stored.
  pub add_line-IsLogged :
      (level : LogLevel) (text : List ℕ) (r : LogRing W) (w : W)
      → WellFormed r
      → IsLogged level text (r, w) (add_line level text (r, w))
  unfolding add_line store_line IsLogged
  add_line-IsLogged level text r w h =
      by_level (ltb (level_rank level) (level_rank r.min_level)) refl
    where
      logged : LogRing W × W
      logged = (store_line (line_of r level text w) r, echo r.sink (line_of r level text w) w)

      by_level :
          (b : Bool)
          → ltb (level_rank level) (level_rank r.min_level) ≡ b
          → IsLogged level text (r, w) (if b then (r, w) else logged)
      by_level true e = inl (ground arith, refl, refl)
      by_level false e = inr (
        ground arith,
        recent-store_line (line_of r level text w) r h,
        refl,
        refl,
        refl,
        store_line-WellFormed (line_of r level text w) r h,
        refl,
      )

  -- The test of FF_LOG before the call changes nothing but what is computed.
  ff_log-add_line :
      (level : LogLevel) (text : List ℕ) (s : LogRing W × W)
      → ff_log level text s ≡ add_line level text s
  unfolding ff_log add_line
  ff_log-add_line level text (r, w) =
      by_level (ltb (level_rank level) (level_rank r.min_level)) (r, w) _
    where
      by_level :
          (b : Bool) (s t : LogRing W × W)
          → (if b then s else if b then s else t) ≡ (if b then s else t)
      by_level true s t = refl
      by_level false s t = refl
