-- ===== src/Commands/EngineConsole/Entries.antt =====
-- game/bl3/console.cpp, `console_command_hook`: the history buffer after a line.
use unrealsdk.Base.{
  ℕ, zero, suc, ◌+◌, ◌-◌, ◌<◌, ◌≤◌, ◌≡◌, ◌≢◌, refl, sym, ap, ◌∙◌, subst, leb, ltb, if◌then◌else◌,
  Option, none, some, inl, inr, ◌⊎◌, Wide, wide_discrete, ite, arith, Bool-cases, ℕ_discrete,
}
use unrealsdk.Commands.EngineConsole.{
  HistoryBuffer, max_history_entries, matching_index, moved_down, destroyed, drop_entry, with_last,
  dropped_index, update_history,
}

-- No line is in the history twice, and there are at most 50.
unfoldable pub IsHistory : HistoryBuffer → Type 0
IsHistory h =
    (h.count ≤ max_history_entries) × ((i j : ℕ) → i < j → j < h.count → h.cells i ≢ h.cells j)

-- The last entry with the line, or `found` when there is none.
matching_index_cases :
    (cells : ℕ → Wide) (line : Wide) (i n found : ℕ)
    → ((matching_index cells line i n found ≡ found)
        × ((j : ℕ) → i ≤ j → j < i + n → cells j ≢ line))
      ⊎ ((i ≤ matching_index cells line i n found)
          × (matching_index cells line i n found < i + n)
          × (cells (matching_index cells line i n found) ≡ line))
unfolding matching_index
matching_index_cases cells line i zero found = inl (refl, λ j l u. absurd (omega arith))
matching_index_cases cells line i (suc n) found =
    let now = ite (wide_discrete (cells i) line) i found in
    elim (matching_index_cases cells line (suc i) n now) [
      | inl (e, h) ↦ elim (wide_discrete (cells i) line) [
        | yes same ↦
            let at : matching_index cells line (suc i) n now ≡ i = ground (arith, e) in
            inr (omega arith, omega arith, subst (λ j. cells j ≡ line) (sym at) same)
        | no other ↦ inl (
          ground (arith, e),
          λ j l u. elim (ℕ_discrete i j) [
            | yes here ↦ subst (λ j. cells j ≢ line) here other
            | no later ↦ h j (omega arith) (omega arith)
          ],
        )
      ]
      | inr (l, u, e) ↦ inr (omega arith, omega arith, e)
    ]

module _ (h : HistoryBuffer) (line : Wide) where
  -- Which entry makes room: none while there is room and the line is new, and else the line's own entry
  -- or the oldest.
  dropped_index_cases :
      ((dropped_index h line ≡ none)
        × (h.count < max_history_entries)
        × ((j : ℕ) → j < h.count → h.cells j ≢ line))
      ⊎ ((d : ℕ) × (dropped_index h line ≡ some d)
          × (d < h.count)
          × ((h.cells d ≡ line)
              ⊎ ((d ≡ 0)
                  × (max_history_entries ≤ h.count)
                  × ((j : ℕ) → j < h.count → h.cells j ≢ line))))
  unfolding dropped_index
  dropped_index_cases = elim (matching_index_cases h.cells line 0 h.count h.count) [
    | inl (e, new) ↦ elim (Bool-cases (leb max_history_entries h.count)) [
      | inl full ↦ inr (
        0,
        ground arith,
        ground arith,
        inr (refl, ground arith, λ j u. new j (omega arith) (omega arith)),
      )
      | inr room ↦ inl (ground arith, ground arith, λ j u. new j (omega arith) (omega arith))
    ]
    | inr (l, u, e) ↦
        inr (matching_index h.cells line 0 h.count h.count, ground arith, omega arith, inl e)
  ]

-- The index of the entry that moves to `i`.
abbrev origin : ℕ → ℕ → ℕ
origin d i = if ltb i d then i else suc i

drop_entry-origin :
    (h : HistoryBuffer) (d i : ℕ)
    → d < h.count
    → i < h.count - 1
    → drop_entry h d i ≡ h.cells (origin d i)
unfolding drop_entry destroyed moved_down
drop_entry-origin h d i l u = ground arith

abbrev updated : Wide → HistoryBuffer → Option ℕ → HistoryBuffer
updated line h none = with_last h.cells h.count line
updated line h (some dropped) = with_last (drop_entry h dropped) (h.count - 1) line

abbrev After : HistoryBuffer → Wide → HistoryBuffer → Type 0
After h line h' = IsHistory h' × (h'.cells (h'.count - 1) ≡ line)

with_last-IsHistory :
    (cells : ℕ → Wide) (size : ℕ) (line : Wide)
    → size < max_history_entries
    → ((i j : ℕ) → i < j → j < size → cells i ≢ cells j)
    → ((j : ℕ) → j < size → cells j ≢ line)
    → IsHistory (with_last cells size line)
      × ((with_last cells size line).cells ((with_last cells size line).count - 1) ≡ line)
unfolding with_last IsHistory
with_last-IsHistory cells size line room distinct new = (
  (
    omega arith,
    λ i j l u same. elim (ℕ_discrete j size) [
      | yes at ↦ new i (omega arith) (ground arith)
      | no other ↦ distinct i j l (omega arith) (ground arith)
    ],
  ),
  ground arith,
)

-- The entries that are left when one was dropped are as distinct as before, and none is the line that
-- was dropped or that is new.
drop_entry_distinct :
    (h : HistoryBuffer) (d : ℕ)
    → d < h.count
    → ((i j : ℕ) → i < j → j < h.count → h.cells i ≢ h.cells j)
    → (i j : ℕ) → i < j
    → j < h.count - 1
    → drop_entry h d i ≢ drop_entry h d j
drop_entry_distinct h d l distinct i j before u same =
    distinct (origin d i) (origin d j) (ground arith) (ground arith)
      (sym (drop_entry-origin h d i l (omega arith)) ∙ same ∙ drop_entry-origin h d j l u)

drop_entry_new :
    (h : HistoryBuffer) (line : Wide) (d : ℕ)
    → d < h.count
    → ((i j : ℕ) → i < j → j < h.count → h.cells i ≢ h.cells j)
    → ((h.cells d ≡ line)
        ⊎ ((d ≡ 0) × (max_history_entries ≤ h.count) × ((j : ℕ) → j < h.count → h.cells j ≢ line)))
    → (j : ℕ) → j < h.count - 1
    → drop_entry h d j ≢ line
drop_entry_new h line d l distinct (inr (first, full, new)) j u same =
    new (origin d j) (ground arith) (sym (drop_entry-origin h d j l u) ∙ same)
drop_entry_new h line d l distinct (inl at) j u same =
    let here : h.cells (origin d j) ≡ line = sym (drop_entry-origin h d j l u) ∙ same in
    elim (Bool-cases (ltb j d)) [
      | inl before ↦
          distinct j d (ground arith) l
            (subst (λ b. h.cells (if b then j else suc j) ≡ line) before here ∙ sym at)
      | inr after ↦
          distinct d (suc j) (ground arith) (omega arith)
            (at ∙ sym (subst (λ b. h.cells (if b then j else suc j) ≡ line) after here))
    ]

-- A line is the newest entry of the history afterwards, and the history has no line twice and at most
-- 50 lines, if it was so before.
pub update_history-IsHistory :
    (h : HistoryBuffer) (line : Wide)
    → IsHistory h
    → IsHistory (update_history line h)
      × ((update_history line h).cells ((update_history line h).count - 1) ≡ line)
unfolding update_history IsHistory
update_history-IsHistory h line (most, distinct) = elim (dropped_index_cases h line) [
  | inl (e, room, new) ↦
      subst (λ o. After h line (updated line h o)) (sym e)
        (with_last-IsHistory h.cells h.count line room distinct new)
  | inr (d, e, l, why) ↦
      subst (λ o. After h line (updated line h o)) (sym e)
        (with_last-IsHistory (drop_entry h d) (h.count - 1) line (omega arith)
          (drop_entry_distinct h d l distinct) (drop_entry_new h line d l distinct why))
]

drop_entry_keeps :
    (h : HistoryBuffer) (d i : ℕ)
    → d < h.count
    → i < h.count
    → i ≢ d
    → (j : ℕ) × (j < h.count - 1) × (drop_entry h d j ≡ h.cells i)
drop_entry_keeps h d i l u other = elim (Bool-cases (ltb i d)) [
  | inl before ↦ (
    i,
    ground arith,
    drop_entry-origin h d i l (ground arith)
        ∙ subst (λ b. h.cells (if b then i else suc i) ≡ h.cells i) (sym before) refl,
  )
  | inr after ↦ (
    i - 1,
    ground arith,
    drop_entry-origin h d (i - 1) l (ground arith) ∙ ap h.cells (ground arith),
  )
]

with_last_kept :
    (cells : ℕ → Wide) (size j : ℕ) (line : Wide) (entry : Wide)
    → j < size
    → cells j ≡ entry
    → (j < (with_last cells size line).count - 1) × ((with_last cells size line).cells j ≡ entry)
unfolding with_last
with_last_kept cells size j line entry l e = (omega arith, ground arith)

-- No other line is lost by an update, but the oldest one when there are 50 lines.
pub update_history_keeps :
    (h : HistoryBuffer) (line : Wide) (i : ℕ)
    → i < h.count
    → h.cells i ≢ line
    → (0 < i) ⊎ (h.count < max_history_entries)
    → (j : ℕ) × (j < (update_history line h).count - 1)
      × ((update_history line h).cells j ≡ h.cells i)
unfolding update_history
update_history_keeps h line i l other kept = elim (dropped_index_cases h line) [
  | inl (e, room, new) ↦
      subst
        (λ o.
          (j : ℕ) × (j < (updated line h o).count - 1) × ((updated line h o).cells j ≡ h.cells i))
        (sym e) (let r = with_last_kept h.cells h.count i line (h.cells i) l refl in (i, r.0, r.1))
  | inr (d, e, u, why) ↦
      let moved : i ≢ d = λ same. elim why [
        | inl at ↦ other (ap h.cells same ∙ at)
        | inr (first, full, new) ↦ elim kept [
          | inl above ↦ absurd (omega arith)
          | inr room ↦ absurd (omega arith)
        ]
      ] in
      let (j, before, at) = drop_entry_keeps h d i u l moved in
      subst
        (λ o.
          (j : ℕ) × (j < (updated line h o).count - 1) × ((updated line h o).cells j ≡ h.cells i))
        (sym e)
        (let r = with_last_kept (drop_entry h d) (h.count - 1) j line (h.cells i) before at in
          (j, r.0, r.1))
]
