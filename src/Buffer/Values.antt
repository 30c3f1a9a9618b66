-- ===== src/Buffer/Values.antt =====
-- The typed reads and writes of BufferBase (include/core/Buffer.h): read, write and probeSize as
-- they dispatch over the built-in types, and the sizes that they check.
--
-- A type that the source dispatches on is a code `Ty`. `number w` is any type of `w` bytes that is
-- copied as it stands in memory: the integers, floats and UUIDs, as their bit patterns, in the
-- little-endian order of the machines that the library is built for.
use supercell_common.Common.{
  ℕ, zero, suc, ◌+◌, ◌*◌, ◌/◌, ◌%◌, ◌^◌, Bool, true, false, List, [], ◌∷◌, ◌++◌, Result, ok, err,
  assertion, assert, ltb, leb, length, take, add_size, sub_size, ◌>>=◌, ◌>>◌, if◌then◌else◌,
}
use supercell_common.Buffer.State.{Mode, plain, circular, Buffer, Allocator, load}
use supercell_common.Buffer.Positions.{rskip}
use supercell_common.Buffer.Block.{read_direct, write_direct, write_array}

abbrev pub max_string_length : ℕ
max_string_length = 8192

abbrev pub max_vector_length : ℕ
max_vector_length = 65536

abbrev pub max_list_length : ℕ
max_list_length = 65536

-- The categories that boost::system::error_code is compared with, and any other one. The category
-- that get_posix_category() gives is the generic one.
pub data Category : Type 0 where
  system generic unknown : Category

pub data Ty : Type 0 where
  number : ℕ → Ty
  boolean string error_code : Ty
  vector linked_list : Ty → Ty
  pair : Ty → Ty → Ty

abbrev pub Value : Ty → Type 0
Value (number w) = ℕ
Value boolean = Bool
Value string = List ℕ
Value error_code = ℕ × Category
Value (vector t) = List (Value t)
Value (linked_list t) = List (Value t)
Value (pair s t) = Value s × Value t

-- A number of `w` bytes in memory.
unfoldable pub bytes_of : ℕ → ℕ → List ℕ
bytes_of zero v = []
bytes_of (suc w) v = (v % 256) ∷ bytes_of w (v / 256)

unfoldable pub number_of : List ℕ → ℕ
number_of [] = 0
number_of (x ∷ xs) = x + 256 * number_of xs

-- is_variable_types
unfoldable pub is_variable_type : Ty → Bool
is_variable_type (number w) = false
is_variable_type boolean = false
is_variable_type string = true
is_variable_type error_code = false
is_variable_type (vector t) = true
is_variable_type (linked_list t) = true
is_variable_type (pair s t) = false

-- probeSizeBuiltinForVector and probeSizeBuiltinForList: the sizes of the elements are added up if
-- the type of the elements is variable; else the size of the first one stands for all.
abbrev pub probe_elements {ℓ} : {A : Type ℓ} → Bool → (A → ℕ) → List A → ℕ
probe_elements true size [] = 0
probe_elements true size (x ∷ xs) = add_size (size x) (probe_elements true size xs)
probe_elements false size [] = 0
probe_elements false size (x ∷ xs) = length (x ∷ xs) * size x % 2 ^ 64

abbrev pub probe_boolean : ℕ
probe_boolean = 1

abbrev pub probe_string : List ℕ → ℕ
probe_string v = add_size (length v) 4

abbrev pub probe_error_code : ℕ
probe_error_code = 4 + 4

-- The size of a vector and that of a list, from those of the elements.
abbrev pub probe_vector : ℕ → ℕ
probe_vector size = add_size 4 size

abbrev pub probe_list : ℕ → ℕ
probe_list size = add_size 4 size

abbrev pub probe_pair : ℕ → ℕ → ℕ
probe_pair first second = add_size first second

-- The size of any other type, which has `w` bytes.
abbrev pub probe_other : ℕ → ℕ
probe_other w = w

-- probeSize
unfoldable pub probe_size : (t : Ty) → Value t → ℕ
unfolding is_variable_type
probe_size (number w) v = probe_other w
probe_size boolean v = probe_boolean
probe_size string v = probe_string v
probe_size error_code v = probe_error_code
probe_size (vector t) v = probe_vector (probe_elements (is_variable_type t) (probe_size t) v)
probe_size (linked_list t) v = probe_list (probe_elements (is_variable_type t) (probe_size t) v)
probe_size (pair s t) (x, y) = probe_pair (probe_size s x) (probe_size t y)

-- The loops over the elements.
unfoldable pub write_each {ℓ} :
    {A : Type ℓ} → (A → Buffer → Result Buffer) → List A → Buffer → Result Buffer
write_each f [] b = ok b
write_each f (x ∷ xs) b = f x b >>= write_each f xs

unfoldable pub read_each {ℓ} :
    {A : Type ℓ} → (Buffer → Result (A × Buffer)) → ℕ → Buffer → Result (List A × Buffer)
read_each f zero b = ok ([], b)
read_each f (suc n) b = f b >>= λ r. read_each f n r.1 >>= λ s. ok (r.0 ∷ s.0, s.1)

unfoldable pub read_number : Mode → ℕ → Buffer → Result (ℕ × Buffer)
unfolding number_of
read_number m w b = read_direct m w b >>= λ r. ok (number_of r.0, r.1)

-- The characters that readBuiltin(std::string&) appends, from the read position.
unfoldable pub read_text : Mode → ℕ → Buffer → Result (List ℕ)
unfolding load
read_text plain n b = load b.mem b.read_pos n
read_text circular n b =
    if leb (add_size b.read_pos n) b.allocated then load b.mem b.read_pos n else (do
      let to_end = sub_size b.allocated b.read_pos
      front ← load b.mem b.read_pos to_end
      back ← load b.mem 0 (sub_size n to_end)
      ok (front ++ back))

unfoldable pub read_string : Mode → Buffer → Result (List ℕ × Buffer)
read_string m b = read_number m 4 b >>= λ r.
    assert (leb r.0 max_string_length)
    >> (read_text m r.0 r.1 >>= λ text. rskip m r.0 r.1 >>= λ b'. ok (text, b'))

-- The category that a number stands for.
abbrev pub category_of : ℕ → Result Category
category_of zero = ok system
category_of (suc zero) = ok generic
category_of (suc (suc zero)) = ok generic
category_of (suc (suc (suc n))) = err assertion

abbrev pub category_number : Category → Result ℕ
category_number system = ok 0
category_number generic = ok 1
category_number unknown = err assertion

unfoldable pub read_error_code : Mode → Buffer → Result ((ℕ × Category) × Buffer)
read_error_code m b = read_number m 4 b >>= λ code.
    read_number m 4 code.1 >>= λ cat. category_of cat.0 >>= λ c. ok ((code.0, c), cat.1)

-- The length and then that many elements, if there are not too many.
unfoldable pub read_elements {ℓ} :
    {A : Type ℓ} → Mode → ℕ → (Buffer → Result (A × Buffer)) → Buffer → Result (List A × Buffer)
read_elements m limit f b = read_number m 4 b >>= λ r. assert (leb r.0 limit) >> read_each f r.0 r.1

unfoldable pub read_boolean : Mode → Buffer → Result (Bool × Buffer)
read_boolean m b = read_number m 1 b >>= λ r. ok (ltb 0 r.0, r.1)

unfoldable pub read_list {ℓ} :
    {A : Type ℓ} → Mode → (Buffer → Result (A × Buffer)) → Buffer → Result (List A × Buffer)
read_list m f b = read_elements m max_list_length f b

unfoldable pub read_pair {ℓ κ} :
    {A : Type ℓ} {B : Type κ}
    → (Buffer → Result (A × Buffer))
    → (Buffer → Result (B × Buffer))
    → Buffer
    → Result ((A × B) × Buffer)
read_pair f g b = f b >>= λ r. g r.1 >>= λ r'. ok ((r.0, r'.0), r'.1)

-- read(T&)
unfoldable pub read_value : Mode → (t : Ty) → Buffer → Result (Value t × Buffer)
unfolding read_boolean read_list read_pair
read_value m (number w) b = read_number m w b
read_value m boolean b = read_boolean m b
read_value m string b = read_string m b
read_value m error_code b = read_error_code m b
read_value m (vector t) b = read_elements m max_vector_length (read_value m t) b
read_value m (linked_list t) b = read_list m (read_value m t) b
read_value m (pair s t) b = read_pair (read_value m s) (read_value m t) b

module _ (heap : Allocator) (m : Mode) where
  unfoldable pub write_number : ℕ → ℕ → Buffer → Result Buffer
  write_number w v b = write_direct heap m (bytes_of w v) b

  -- The length is cut to 32 bits before it is checked, and that many characters are written.
  unfoldable pub write_string : List ℕ → Buffer → Result Buffer
  write_string text b =
      let n = length text % 2 ^ 32 in
      assert (leb n max_string_length) >> (write_number 4 n b >>= write_array heap m (take n text))

  unfoldable pub write_error_code : ℕ × Category → Buffer → Result Buffer
  write_error_code (code, category) b =
      write_number 4 code b >>= λ b'. category_number category >>= λ n. write_number 4 n b'

  unfoldable pub write_elements {ℓ} :
      {A : Type ℓ} → (A → Buffer → Result Buffer) → List A → Buffer → Result Buffer
  write_elements f xs b =
      let n = length xs % 2 ^ 32 in
      assert (leb n max_vector_length) >> (write_number 4 n b >>= write_each f xs)

  unfoldable pub write_boolean : Bool → Buffer → Result Buffer
  write_boolean v b = write_number 1 (if v then 1 else 0) b

  -- The limit is that of vectors.
  unfoldable pub write_list {ℓ} :
      {A : Type ℓ} → (A → Buffer → Result Buffer) → List A → Buffer → Result Buffer
  write_list f xs b = write_elements f xs b

  unfoldable pub write_pair {ℓ κ} :
      {A : Type ℓ} {B : Type κ}
      → (A → Buffer → Result Buffer)
      → (B → Buffer → Result Buffer)
      → A × B
      → Buffer
      → Result Buffer
  write_pair f g (x, y) b = f x b >>= g y

  -- write(const T&)
  unfoldable pub write_value : (t : Ty) → Value t → Buffer → Result Buffer
  unfolding write_boolean write_list write_pair
  write_value (number w) v b = write_number w v b
  write_value boolean v b = write_boolean v b
  write_value string v b = write_string v b
  write_value error_code v b = write_error_code v b
  write_value (vector t) v b = write_elements (write_value t) v b
  write_value (linked_list t) v b = write_list (write_value t) v b
  write_value (pair s t) v b = write_pair (write_value s) (write_value t) v b
