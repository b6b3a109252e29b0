-- ===== src/Plugin/FakeAmx.antt =====
-- src/playground/plugin/fake_amx.cc: the heap on which the arguments of a native function are put,
-- as cells of four bytes; `hea` is an address in bytes. What is written behind the end of the heap,
-- which the source does not check, is lost here.
use playgroundjs_plugin.Common.{
  [], ℕ, ◌/◌, ◌+◌, set, List, replicate, Option, length, ◌∷◌, get_elem?, ◌<◌, ◌*◌, ◌≡◌, ◌≤◌, arith,
  map, some, get_elem?-set_self, ◌∙◌, get_elem?-set_ne, ap₂, length-set, refl,
}

-- `kHeapCellSize`
abbrev pub heap_cell_size : ℕ
heap_cell_size = 4096

-- `FakeAMX`: its heap, and `amx_.hea`.
pub record FakeAmx : Type 0 where
  pub amx_heap : List ℕ
  pub hea : ℕ

-- `FakeAMX::FakeAMX`
abbrev pub new_fake_amx : FakeAmx
new_fake_amx = record { amx_heap = replicate heap_cell_size 0; hea = 0 }

-- `Allocate`: the heap behind `hea` afterwards. The address is the old `hea`.
unfoldable pub allocate : ℕ → FakeAmx → FakeAmx
allocate count amx = record amx { hea = amx.hea + count * 4 }

-- `PushCell`: the address and what becomes of the heap.
unfoldable pub push_cell : ℕ → FakeAmx → ℕ × FakeAmx
push_cell value amx =
    let address = amx.hea in
    let allocated = allocate 1 amx in
    (address, record allocated { amx_heap = set allocated.amx_heap (address / 4) value })

-- `ReadCell`, with `none` behind the end of the heap.
unfoldable pub read_cell : ℕ → FakeAmx → Option ℕ
read_cell address amx = get_elem? amx.amx_heap (address / 4)

-- What the destructor of `ScopedStackModifier` does with the `hea` that its constructor stored.
unfoldable pub restore : ℕ → FakeAmx → FakeAmx
restore stored_hea amx = record amx { hea = stored_hea }

-- Several cells pushed in order: their addresses, and the heap.
unfoldable pub push_cells : List ℕ → FakeAmx → List ℕ × FakeAmx
push_cells [] amx = ([], amx)
push_cells (value ∷ values) amx =
    let pushed = push_cell value amx in
    let behind = push_cells values pushed.1 in (pushed.0 ∷ behind.0, behind.1)

abbrev pub read_cells : List ℕ → FakeAmx → List (Option ℕ)
read_cells [] amx = []
read_cells (address ∷ addresses) amx = read_cell address amx ∷ read_cells addresses amx

-- What lies below `hea` stays.
push_cells-below :
    (values : List ℕ) (amx : FakeAmx) (address : ℕ)
    → address / 4 < amx.hea / 4
    → read_cell address (push_cells values amx).1 ≡ read_cell address amx
unfolding push_cells push_cell read_cell allocate
push_cells-below [] amx address h = refl
push_cells-below (value ∷ values) amx address h =
    push_cells-below values (push_cell value amx).1 address (omega arith)
    ∙ get_elem?-set_ne amx.amx_heap (amx.hea / 4) (address / 4) value (λ e. omega arith)

push_cell-read :
    (value : ℕ) (amx : FakeAmx)
    → amx.hea / 4 < length amx.amx_heap
    → read_cell (push_cell value amx).0 (push_cell value amx).1 ≡ some value
unfolding push_cell read_cell allocate
push_cell-read value amx h = get_elem?-set_self amx.amx_heap (amx.hea / 4) value h

push_cell-hea : (value : ℕ) (amx : FakeAmx) → (push_cell value amx).1.hea ≡ amx.hea + 4
unfolding push_cell allocate
push_cell-hea value amx = refl

length-push_cell :
    (value : ℕ) (amx : FakeAmx) → length (push_cell value amx).1.amx_heap ≡ length amx.amx_heap
unfolding push_cell allocate
length-push_cell value amx = length-set amx.amx_heap (amx.hea / 4) value

push_cell-address : (value : ℕ) (amx : FakeAmx) → (push_cell value amx).0 ≡ amx.hea
unfolding push_cell
push_cell-address value amx = refl

-- Cells that fit on the heap are read back, each from its address, after all have been pushed.
pub push_cells-read :
    (values : List ℕ) (amx : FakeAmx)
    → amx.hea / 4 + length values ≤ length amx.amx_heap
    → read_cells (push_cells values amx).0 (push_cells values amx).1 ≡ map some values
unfolding push_cells
push_cells-read [] amx h = refl
push_cells-read (value ∷ values) amx h =
    let pushed = (push_cell value amx).1 in
    ap₂ ◌∷◌
      (push_cells-below values pushed (push_cell value amx).0
          (omega (arith, push_cell-hea value amx, push_cell-address value amx))
        ∙ push_cell-read value amx (omega arith))
      (push_cells-read values pushed
        (omega (arith, push_cell-hea value amx, length-push_cell value amx)))
