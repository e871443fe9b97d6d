-- ===== src/Fec2/History.antt =====
-- Any sequence of calls of the operations of `Fec2Buffer`, from its constructor on.
use udpfec.Base.{ℕ, ◌≡◌, ◌<◌, refl, List, [], ◌∷◌, Bool, Option, none, some}
use udpfec.Fec2.Buffer.{
  GtpPackCacheStru, Fec2Buffer, fec2_buffer, cached_num, clear, pop_pack, pop_pos, pop_all_pack,
  init, push_pack,
}
use udpfec.Fec2.Clear.{IsCounted, clear-zone}
use udpfec.Fec2.Counted.{
  pop_pack-IsCounted, pop_pos-IsCounted, push_pack-IsCounted, pop_all_pack-IsCounted,
}

pub data Command : Type 0 where
  push : Bool → Option ℕ → ℕ → ℕ → ℕ → Command
  pop : GtpPackCacheStru → Command
  pop_at : ℕ → Command
  clear_between : ℕ → ℕ → Command
  reset : Command

unfoldable pub execute : Command → Fec2Buffer → Option Fec2Buffer
execute (push new malloced address pack_sn pack_size) b =
    some (push_pack new malloced b address pack_sn pack_size).1
execute (pop pack) b = some (pop_pack b pack)
execute (pop_at pos) b = some (pop_pos b pos)
execute (clear_between start_pos end_pos) b = clear b start_pos end_pos
execute reset b = some (init b)

unfoldable pub execute_all : List Command → Fec2Buffer → Option Fec2Buffer
execute_all [] b = some b
execute_all (c ∷ rest) b = elim (execute c b) [ none ↦ none | some b' ↦ execute_all rest b' ]

-- The positions given to `Clear` are in the cache.
abbrev pub AllInside : List Command → Type 0
AllInside [] = Unit {0}
AllInside (clear_between start_pos end_pos ∷ rest) =
    (start_pos < 32) × (end_pos < 32) × AllInside rest
AllInside (push new malloced address pack_sn pack_size ∷ rest) = AllInside rest
AllInside (pop pack ∷ rest) = AllInside rest
AllInside (pop_at pos ∷ rest) = AllInside rest
AllInside (reset ∷ rest) = AllInside rest

abbrev EndsCounted : Option Fec2Buffer → Type 0
EndsCounted o = (b' : Fec2Buffer) × (o ≡ some b') × IsCounted b'

execute_all-EndsCounted :
    (l : List Command) (b : Fec2Buffer) → AllInside l → IsCounted b → EndsCounted (execute_all l b)
unfolding execute_all execute init
execute_all-EndsCounted [] b inside counted = (b, refl, counted)
execute_all-EndsCounted (push new malloced address pack_sn pack_size ∷ rest) b inside counted =
    execute_all-EndsCounted rest (push_pack new malloced b address pack_sn pack_size).1 inside
      (push_pack-IsCounted new malloced b address pack_sn pack_size counted)
execute_all-EndsCounted (pop pack ∷ rest) b inside counted =
    execute_all-EndsCounted rest (pop_pack b pack) inside (pop_pack-IsCounted b pack counted)
execute_all-EndsCounted (pop_at pos ∷ rest) b inside counted =
    execute_all-EndsCounted rest (pop_pos b pos) inside (pop_pos-IsCounted b pos counted)
execute_all-EndsCounted (reset ∷ rest) b inside counted =
    execute_all-EndsCounted rest (pop_all_pack b) inside (pop_all_pack-IsCounted b counted)
execute_all-EndsCounted (clear_between start_pos end_pos ∷ rest) b inside counted =
    let (b1, e, counted1, freed, kept) = clear-zone b start_pos end_pos counted inside.0 inside.1 in
    let (b2, e2, counted2) = execute_all-EndsCounted rest b1 inside.2 counted1 in
    (b2, rw (e, execute_all) e2, counted2)

-- From the constructor on, every sequence of pushes, pops, resets and clears at positions in the
-- cache ends, whatever the pool gives, and `pack_num_in_cache_` is the number of slots in use.
pub execute_all-fec2_buffer-IsCounted :
    (l : List Command)
    → AllInside l
    → (b : Fec2Buffer) × (execute_all l fec2_buffer ≡ some b) × IsCounted b
unfolding fec2_buffer cached_num
execute_all-fec2_buffer-IsCounted l inside =
    execute_all-EndsCounted l fec2_buffer inside (refl, refl)
