-- ===== src/Assess/Samples.antt =====
-- cpp/shared/utils.h: how a file becomes the samples of an assessment.
use Prim.Native.Nat.{bit_and, bit_or, min}
use is_there_entropy_down_th.Common.{
  ℕ, zero, suc, ◌+◌, ◌-◌, ◌*◌, ◌/◌, ◌%◌, ◌^◌, Bool, true, false, not, ◌&&◌, ◌||◌, Option, none,
  some, List, [], ◌∷◌, ◌++◌, if◌then◌else◌, ltb, ◌==◌, length, set, get_or, replicate, map,
}
use is_there_entropy_down_th.Common.Words.{u8, u64, sub64}
pub mod Table
pub mod Rank
pub mod Width
pub mod Files
pub mod Tests

-- `struct data_t`
pub record DataT : Type 0 where
  pub word_size : ℕ
  pub alph_size : ℕ
  pub maxsymbol : ℕ
  pub rawsymbols : List ℕ
  pub symbols : List ℕ
  pub bsymbols : List ℕ
  pub len : ℕ
  pub blen : ℕ

pub data ReadError : Type 0 where
  could_not_open fseek_failed ftell_failed is_empty no_memory_symbols read_failure does_not_fit
        no_memory_bsymbols :
      ReadError

pub data ReadResult : Type 0 where
  done : DataT → ReadResult
  failed : ReadError → ReadResult

-- What the C library does with the file and the memory; `tell` is the length of the file, or none
-- for an error, and `read` gives the bytes it got.
pub record Host : Type 0 where
  pub opens : Bool
  pub seek_end : Bool
  pub tell : Option ℕ
  pub seek_set : (offset : ℕ) → Bool
  pub allocates : (bytes : ℕ) → Bool
  pub read : (offset count : ℕ) → List ℕ

pub data_mask : (mask : ℕ) → List ℕ → ℕ
data_mask mask [] = mask
data_mask mask (s ∷ symbols) = data_mask (bit_or mask s) symbols

-- `for(i=8; (i>0) && ((datamask & curbit) == 0); i--) curbit >>= 1`
pub width_from : (i curbit mask : ℕ) → ℕ
width_from zero curbit mask = zero
width_from (suc i) curbit mask =
    let rest = width_from i (curbit / 2) mask in if bit_and mask curbit == 0 then rest else suc i

-- The width that is asked for, or the data's own if none is; data wider than asked for are refused.
pub establish_width : (word_size : ℕ) → List ℕ → Option ℕ
unfolding data_mask width_from
establish_width word_size symbols =
    let width = width_from 8 0x80 (data_mask 0 symbols) in
    if word_size == 0 then some width else (if ltb word_size width then none else some word_size)

-- `if(symbols[i] > maxsymbol) maxsymbol = symbols[i]`
pub max_symbol : (max : ℕ) → List ℕ → ℕ
max_symbol max [] = max
max_symbol max (s ∷ symbols) = max_symbol (if ltb max s then s else max) symbols

-- `if(table[symbols[i]] == 0) table[symbols[i]] = 1`
pub mark_symbols : List ℕ → (table : List ℕ) → List ℕ
mark_symbols [] table = table
mark_symbols (s ∷ symbols) table =
    mark_symbols symbols (if get_or table s 0 == 0 then set table s 1 else table)

-- `if(table[i] != 0) table[i] = (uint8_t)alph_size++`: the table and the size after it.
pub number_table : (alph_size : ℕ) → List ℕ → List ℕ × ℕ
number_table alph_size [] = ([], alph_size)
number_table alph_size (mark ∷ table) =
    let (rest, size) = number_table (if mark == 0 then alph_size else suc alph_size) table in
    ((if mark == 0 then 0 else u8 alph_size) ∷ rest, size)

-- The bits of a symbol from the top: `(symbol >> (word_size-1-j)) & 0x1`.
unfoldable pub bits_from : (left : ℕ) → (symbol : ℕ) → List ℕ
bits_from zero symbol = []
bits_from (suc left) symbol = bit_and (symbol / 2 ^ left) 1 ∷ bits_from left symbol

pub all_bits : (word_size : ℕ) → List ℕ → List ℕ
unfolding bits_from
all_bits word_size [] = []
all_bits word_size (s ∷ symbols) = bits_from word_size s ++ all_bits word_size symbols

-- From the symbols in the width on. With a width of 1, `bsymbols` is the array `symbols` itself, and
-- changes with it.
pub map_down : (raw : List ℕ) (word_size : ℕ) → List ℕ → DataT
unfolding max_symbol mark_symbols number_table all_bits
map_down raw word_size masked =
    let maxsymbol = max_symbol 0 masked in
    let (table, alph_size) = number_table 0 (mark_symbols masked (replicate (2 ^ word_size) 0)) in
    let symbols =
      if ltb alph_size (maxsymbol + 1) then map (λ s. u8 (get_or table s 0)) masked else masked in
    record {
      word_size = word_size;
      alph_size = alph_size;
      maxsymbol = maxsymbol;
      rawsymbols = raw;
      symbols = symbols;
      bsymbols = if word_size == 1 then symbols else all_bits word_size masked;
      len = length raw;
      blen = length raw * word_size;
    }

abbrev pub finish_in : Option ℕ → Host → (raw : List ℕ) → ReadResult
finish_in none h raw = failed does_not_fit
finish_in (some word_size) h raw =
    if not (word_size == 1) && not (h.allocates (length raw * word_size))
    then failed no_memory_bsymbols
    else done (map_down raw word_size (map (λ s. bit_and s (2 ^ word_size - 1)) raw))

-- What both functions do once the bytes are read.
pub finish : (word_size : ℕ) → Host → List ℕ → ReadResult
unfolding establish_width map_down
finish word_size h raw = finish_in (establish_width word_size raw) h raw

-- The two arrays are allocated, and the bytes read, from an offset on.
pub read_samples : (word_size offset len : ℕ) → Host → ReadResult
unfolding finish
read_samples word_size offset len h =
    let bytes = h.read offset len in
    if not (h.allocates len)
    then failed no_memory_symbols
    else if not (length bytes == len)
    then failed read_failure
    else finish word_size h bytes

abbrev subset_of : (subset_index subset_size word_size file_len : ℕ) → Host → ReadResult
subset_of subset_index subset_size word_size file_len h =
    let offset = if subset_size == 0 then 0 else subset_index * subset_size in
    let len =
      if subset_size == 0
      then file_len
      else min (sub64 file_len (u64 (subset_index * subset_size))) subset_size in
    if not (subset_size == 0) && not (h.seek_set (subset_index * subset_size))
    then failed fseek_failed
    else if len == 0
    then failed is_empty
    else read_samples word_size offset len h

-- The length of the file, or the error.
abbrev with_length : Host → (ℕ → ReadResult) → ReadResult
with_length h next =
    if not h.opens
    then failed could_not_open
    else if not h.seek_end
    then failed fseek_failed
    else elim h.tell [ none ↦ failed ftell_failed | some file_len ↦ next file_len ]

-- `fileLen - subsetIndex*subsetSize` is unsigned: behind the end of the file it wraps, and the read
-- then fails.
pub read_file_subset : (subset_index subset_size word_size : ℕ) → Host → ReadResult
unfolding read_samples
read_file_subset subset_index subset_size word_size h =
    with_length h (λ file_len. subset_of subset_index subset_size word_size file_len h)

unfoldable pub read_file : (word_size : ℕ) → Host → ReadResult
unfolding read_samples
read_file word_size h =
    with_length h (λ len. if len == 0 then failed is_empty else read_samples word_size 0 len h)
