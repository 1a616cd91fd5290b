-- ===== src/Assess/MultiMcw/Moves.antt =====
-- A window that moves on has the most common value of its new symbols.
use mathlib.Core.Path.{subst}
use is_there_entropy_down_th.Common.{
  ℕ, suc, ◌≡◌, ◌≢◌, ◌∙◌, ◌-◌, ◌<◌, ◌≤◌, refl, sym, ap, some, List, ◌∷◌, leb, ◌==◌, length,
  Bool-cases, inl, inr, arith, get_elem?,
}
use is_there_entropy_down_th.Assess.Lag.{store}
use is_there_entropy_down_th.Assess.MultiMcw.{Window, Best, search_frequent, update_window}
use is_there_entropy_down_th.Assess.MultiMcw.Counts.{
  last_position, last_position-le, get_elem?-last_position, store_self, store_ne,
  store-last_position, store-moved,
}
use is_there_entropy_down_th.Assess.MultiMcw.Modes.{
  Outdone, IsMode, search_frequent-IsBest, Outdone-first, Outdone-kept,
}

module _ (alph_size x out : ℕ) (past : List ℕ) (w : Window) (h : x < alph_size)
    (known : get_elem? past w.before ≡ some out) (m : IsMode alph_size past w) where
  fewer : ℕ → ℕ
  fewer = store out (w.win_cnts out - 1) w.win_cnts

  moved_cnts : ℕ → ℕ
  unfolding fewer
  moved_cnts = store x (suc (fewer x)) fewer

  moved_poses : ℕ → ℕ
  moved_poses = store x (length past) w.win_poses

  fewer-le : (s : ℕ) → fewer s ≤ w.win_cnts s
  unfolding fewer
  fewer-le s = elim (Bool-cases (s == out)) [
    | inl e ↦
        let same : out ≡ s = ground arith in
        rw e (subst (λ y. w.win_cnts y - 1 ≤ w.win_cnts s) (sym same) (omega arith))
    | inr e ↦ rw e (omega arith)
  ]

  fewer_ne : (s : ℕ) → out ≢ s → fewer s ≡ w.win_cnts s
  unfolding fewer
  fewer_ne s ne = store_ne out (w.win_cnts out - 1) w.win_cnts s ne

  -- x is as common as the most common value was.
  x_leads :
      w.max_cnt ≤ moved_cnts x
      → (s : ℕ) → s < alph_size
      → Outdone (moved_cnts s) (moved_poses s) (moved_cnts x) (moved_poses x)
  unfolding moved_cnts moved_poses
  x_leads le s lt =
      let self = store_self x (suc (fewer x)) fewer x refl in
      Outdone-first fewer w.win_poses x (suc (fewer x)) (length past) s w.max_cnt (omega arith)
        (λ ne. let led = m.leads s lt in let top = m.top in let less = fewer-le s in ground arith)
        (let latest = m.latest s in let below = last_position-le s past in omega arith)

  -- The most common value stays in front.
  frequent_leads :
      out ≢ w.frequent
      → moved_cnts x < w.max_cnt
      → (moved_cnts w.frequent ≡ w.max_cnt)
        × ((s : ℕ)
            → s < alph_size
            → Outdone
                (moved_cnts s)
                (moved_poses s)
                (moved_cnts w.frequent)
                (moved_poses w.frequent))
  unfolding moved_cnts moved_poses
  frequent_leads ne lt =
      let self = store_self x (suc (fewer x)) fewer x refl in
      let top = m.top in
      let first = fewer_ne w.frequent ne in
      let other : x ≢ w.frequent =
        λ same. let equal : fewer x ≡ fewer w.frequent = ap fewer same in omega arith in
      (
        store_ne x (suc (fewer x)) fewer w.frequent other ∙ first ∙ sym top,
        λ s small.
            Outdone-kept fewer w.win_poses x (suc (fewer x)) (length past) s w.frequent other
              (omega arith)
              (λ ne'. let led = m.leads s small in let less = fewer-le s in ground arith),
      )

  searched : Best
  unfolding moved_cnts moved_poses
  searched =
      search_frequent moved_cnts moved_poses alph_size 0
        (record { cnt = w.max_cnt - 1; symbol = w.frequent; pos = length past - suc w.before })

  -- A frequent symbol that loses an occurrence is at least as common as one less, and not before the
  -- symbol that leaves.
  lost_one :
      out ≡ w.frequent
      → (w.max_cnt - 1 ≤ moved_cnts w.frequent)
        × (length past - suc w.before ≤ moved_poses w.frequent)
  unfolding moved_cnts moved_poses fewer
  lost_one e =
      let top = m.top in
      let less : fewer w.frequent ≡ w.max_cnt - 1 =
        store_self out (w.win_cnts out - 1) w.win_cnts w.frequent e
        ∙ ap (λ y. w.win_cnts y - 1) e
        ∙ ap (λ y. y - 1) (sym top) in
      let last : length past - suc w.before ≤ last_position w.frequent past =
        subst (λ y. length past - suc w.before ≤ last_position y past) e
          (get_elem?-last_position w.before out past known) in
      let latest = m.latest w.frequent in
      elim (Bool-cases (x == w.frequent)) [
        | inl b ↦
            let same : x ≡ w.frequent = ground arith in
            let count = store_self x (suc (fewer x)) fewer w.frequent same in
            let equal : fewer x ≡ fewer w.frequent = ap fewer same in
            let pos = store_self x (length past) w.win_poses w.frequent same in
            (omega arith, omega arith)
        | inr b ↦
            let ne : x ≢ w.frequent = ground arith in
            let count = store_ne x (suc (fewer x)) fewer w.frequent ne in
            let pos = store_ne x (length past) w.win_poses w.frequent ne in
            (omega arith, omega arith)
      ]

  -- What the search is to find.
  abbrev Found : Best → Type 0
  Found b =
      (b.symbol < alph_size)
      × (b.cnt ≡ moved_cnts b.symbol)
      × ((s : ℕ)
          → s < alph_size
          → Outdone (moved_cnts s) (moved_poses s) (moved_cnts b.symbol) (moved_poses b.symbol))

  -- Where nothing is better than the frequent symbol with one occurrence less, it stays.
  lost_one-Found :
      (e : out ≡ w.frequent)
      → ((s : ℕ)
          → s < alph_size
          → Outdone (moved_cnts s) (moved_poses s) (w.max_cnt - 1) (length past - suc w.before))
      → Found
          (record { cnt = w.max_cnt - 1; symbol = w.frequent; pos = length past - suc w.before })
  lost_one-Found e all =
      let (enough, later) = lost_one e in
      let own = all w.frequent m.known in
      let equal : w.max_cnt - 1 ≡ moved_cnts w.frequent = ground arith in
      (m.known, equal, λ s lt. let led = all s lt in ground arith)

  -- The search finds the most common value.
  searched-Found : out ≡ w.frequent → Found searched
  unfolding searched
  searched-Found e =
      let from : Best = record {
        cnt = w.max_cnt - 1;
        symbol = w.frequent;
        pos = length past - suc w.before;
      } in
      let best =
        search_frequent-IsBest moved_cnts moved_poses alph_size 0 alph_size from (omega arith) in
      elim best.real [
        | inr (small, count, pos) ↦ (
          small,
          count,
          λ s lt. let led = best.all s (omega arith) lt in rw (sym count, sym pos) led,
        )
        | inl same ↦ subst Found (sym same) (
            lost_one-Found e λ s lt.
              subst (λ b. Outdone (moved_cnts s) (moved_poses s) b.cnt b.pos) same
                (best.all s (omega arith) lt))
      ]

  pub update_window-IsMode :
      IsMode alph_size (x ∷ past) (update_window alph_size (length past) out x w)
  unfolding update_window searched
  update_window-IsMode =
      let counted = λ (s : ℕ). store-moved w.before out x s w.win_cnts past known m.counted in
      let latest = λ (s : ℕ). store-last_position x s w.win_poses past (m.latest s) in
      elim (Bool-cases (out == w.frequent)) [
        | inl e ↦
            let (small, count, all) = searched-Found (ground arith) in
            rw e (record {
              counted = counted;
              latest = latest;
              known = small;
              top = count;
              leads = all;
            })
        | inr e ↦ rw e (elim (Bool-cases (leb w.max_cnt (moved_cnts x))) [
          | inl e' ↦ rw e' (record {
            counted = counted;
            latest = latest;
            known = h;
            top = refl;
            leads = x_leads (ground arith);
          })
          | inr e' ↦
              let (top, leads) = frequent_leads (ground arith) (ground arith) in
              rw e' (record {
                counted = counted;
                latest = latest;
                known = m.known;
                top = sym top;
                leads = leads;
              })
        ])
      ]
