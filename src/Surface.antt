-- ===== src/Surface.antt =====
-- kexts/VMsvga2/AC/UC/VMsvga2Surface.h and .cpp: the state of a surface of the window server, and
-- the memory behind it. The surface has been started, so that its accelerator is there.
pub mod Backing
pub mod Shape
pub mod Overlays
pub mod Lock
pub mod Reshape
pub mod Calls
pub mod Kept
pub mod Sound
pub mod Returned
pub mod Life
pub mod Exclusion
pub mod Bounds
pub mod Tests
use docker_macos.Base.{
  ℕ, ◌+◌, ◌-◌, ◌*◌, ◌%◌, ◌^◌, Bool, true, false, not, ◌&&◌, ◌||◌, Option, none, some, ltb, ◌==◌,
  if◌then◌else◌,
}
use docker_macos.Base.Word.{u32, add32, sub32}
use docker_macos.Accel.{Region}
use docker_macos.Svga.Commands.{Rect}
use docker_macos.Transfer.{Buffer, Provider, State, prepare, complete, discard, init_buffer}

-- SVGAOverlayUnit, the registers of an overlay stream that the surface writes.
pub record Overlay : Type 0 where
  pub enabled : Bool
  pub data_offset : ℕ
  pub format : ℕ
  pub width : ℕ
  pub height : ℕ
  pub src : Rect
  pub dst : Rect
  pub pitch : ℕ
  pub size : ℕ
  pub data_gmr_id : ℕ
  pub dst_screen_id : ℕ

-- What a surface asks of IOKit and of the accelerator, beside what its transfer buffer asks.
-- Addresses and maps are numbers, of which 0 is the null pointer; the results of the creators of
-- memory descriptors say whether there is one.
pub record Kernel (W : Type 0) : Type 0 where
  pub provider : Provider W
  pub client_md : (addr size : ℕ) → W → Bool × W
  pub kernel_md : (size : ℕ) → W → Bool × W
  pub vram_realloc : (ptr size : ℕ) → W → ℕ × W
  pub vram_free : (ptr : ℕ) → W → W
  pub map_vram : (task offset size : ℕ) → W → ℕ × W
  pub map_md : (task : ℕ) → W → ℕ × W
  pub release_map : (map : ℕ) → W → W
  pub pageable_md : (size : ℕ) → W → Bool × W
  pub pageable_prepare : W → ℕ × W
  pub pageable_map : (task : ℕ) → W → ℕ × W
  pub pageable_complete : W → W
  pub pageable_release : W → W
  pub fill : (map value words : ℕ) → W → W
  pub shape_bytes : W → Bool × W
  pub create_primary_screen : (w h : ℕ) → W → ℕ × W
  pub retain_master_surface : W → Bool × W
  pub release_master_surface : W → W
  pub test_direct_blit : W → Bool × W
  pub have_screen : W → Bool
  pub have_3d : W → Bool
  pub option_packed_backing : Bool
  pub option_no_yuv : Bool
  pub option_direct_blit : Bool
  pub video_set_reg : (stream_id register_id value : ℕ) → W → W
  pub video_set_regs_in_range :
      (stream_id : ℕ) → Option Overlay → (min_reg max_reg : ℕ) → W → Option ℕ × W

-- m_backing without its transfer buffer, of which `gart_ptr` is the field that only the surface
-- uses: 0 for memory of the kernel, 1 for the client's, 2 for the client's that has changed since.
pub record Memory : Type 0 where
  pub self : ℕ
  pub offset : ℕ
  pub size : ℕ
  pub map0 : ℕ
  pub map1 : ℕ
  pub gart_ptr : ℕ

pub record Client : Type 0 where
  pub addr : ℕ
  pub row_bytes : ℕ
  pub size : ℕ

-- IOAccelSurfaceScaling. Coordinates are int16_t, here by their values as uint32_t; the three
-- reserved words are named for what the surface keeps there.
pub record Scale : Type 0 where
  pub buffer : Rect
  pub source_w : ℕ
  pub source_h : ℕ
  pub byte_size : ℕ
  pub pitch : ℕ
  pub buffer_offset : ℕ

pub record Screen : Type 0 where
  pub client_addr : ℕ
  pub w : ℕ
  pub h : ℕ
  pub y : ℕ
  pub client_row_bytes : ℕ

-- bIsLocked, one field for each of its bits.
pub record Locks : Type 0 where
  pub read : Bool
  pub write : Bool
  pub context : Bool

pub record Flags : Type 0 where
  pub have_id : Bool
  pub have_master_surface : Bool
  pub have_screen_object : Bool
  pub video_mode : Bool
  pub direct_blit : Bool
  pub skip_write_lock_once : Bool

-- The two colour depths, the two formats for YUV, and any other that a client names, among which is
-- kIO32BGRAPixelFormat.
pub data PixelFormat : Type 0 where
  depth1555 depth8888 yuvs vuy2 bgra32 : PixelFormat
  apple : ℕ → PixelFormat

pub record Format : Type 0 where
  pub w_id : ℕ
  pub surface_format : ℕ
  pub bytes_per_pixel : ℕ
  pub pixel_format : PixelFormat

pub record Video : Type 0 where
  pub stream_id : ℕ
  pub vmware_pixel_format : ℕ
  pub unit : Overlay

pub record Surface (W : Type 0) : Type 0 where
  pub transfer : State W
  pub memory : Memory
  pub client : Client
  pub scale : Scale
  pub screen : Screen
  pub locks : Locks
  pub flags : Flags
  pub format : Format
  pub video : Video
  pub owning_task : ℕ
  pub has_last_shape : Bool
  pub last_region : Option Region
  pub framebuffer_index : ℕ

pub data Status : Type 0 where
  success bad_argument not_ready cannot_lock no_memory unsupported overrun no_space : Status
  no_resources no_device : Status
  failed : (rc : ℕ) → Status

-- GMR_VRAM
abbrev pub gmr_vram : ℕ
gmr_vram = u32 - 2

abbrev pub bare_memory : Memory
bare_memory = record { self = 0; offset = 0; size = 0; map0 = 0; map1 = 0; gart_ptr = 0 }

abbrev pub no_client : Client
no_client = record { addr = 0; row_bytes = 0; size = 0 }

module _ {W : Type 0} where
  unfoldable pub is_backing_valid : Surface W → Bool
  is_backing_valid s = not (s.memory.self == 0) || s.transfer.buffer.has_md

  unfoldable pub classify_backing : Surface W → ℕ
  classify_backing s =
      if not (s.memory.self == 0)
      then 1
      else if s.transfer.buffer.has_md
      then (if not (s.memory.gart_ptr == 0) then 2 else 1)
      else 0

  abbrev pub in_world : W → Surface W → Surface W
  in_world w s = record s { transfer = record s.transfer { world = w } }

  abbrev pub with_buffer : Buffer → Surface W → Surface W
  with_buffer b s = record s { transfer = record s.transfer { buffer = b } }

module _ {W : Type 0} (k : Kernel W) where
  abbrev pub drop_map : ℕ → W → W
  drop_map m w = if not (m == 0) then k.release_map m w else w

  unfoldable pub release_backing : Surface W → Surface W
  release_backing s =
      let w = drop_map s.memory.map1 (drop_map s.memory.map0 s.transfer.world) in
      let t = discard k.provider (complete (some k.provider) (record s.transfer { world = w })) in
      let w' = if not (s.memory.self == 0) then k.vram_free s.memory.self t.world else t.world in
      record s {
        memory = bare_memory;
        transfer = record t {
          world = w';
          buffer = init_buffer (record { has_md = false; gmr_id = 0; fence = 0 });
        };
      }

  -- releaseBackingMap at 0 and at 1.
  unfoldable pub release_map0 : Surface W → Surface W
  release_map0 s = record (in_world (drop_map s.memory.map0 s.transfer.world) s) {
    memory = record s.memory { map0 = 0 };
  }

  unfoldable pub release_map1 : Surface W → Surface W
  release_map1 s = record (in_world (drop_map s.memory.map1 s.transfer.world) s) {
    memory = record s.memory { map1 = 0 };
  }

  -- With the memory descriptor `md`, the ends of wrapClientBacking and allocGMRBacking.
  unfoldable pub adopt : (gart_ptr : ℕ) → Surface W → Bool × Surface W
  adopt gart_ptr s =
      let (rc, t) =
        prepare (some k.provider)
          (record s.transfer { buffer = record s.transfer.buffer { has_md = true } }) in
      if not (rc == 0)
      then (
        false,
        record s {
          transfer = record t {
            buffer = record t.buffer { has_md = false };
            world = k.provider.md_release t.world;
          };
        },
      )
      else (
        true,
        record s {
          transfer = record t { buffer = record t.buffer { fence = 0 } };
          memory = record s.memory { gart_ptr = gart_ptr };
        },
      )

  -- wrapClientBacking, once the old backing is gone.
  unfoldable pub wrap_new : Surface W → Bool × Surface W
  wrap_new s =
      let residue = s.client.addr % 4096 in
      let m = record s.memory { offset = residue; size = s.scale.byte_size } in
      let (ok, w) = k.client_md (s.client.addr - residue) s.scale.byte_size s.transfer.world in
      if not ok
      then (false, in_world w (record s { memory = m }))
      else adopt 1 (in_world w (record s { memory = m }))

  unfoldable pub wrap_client_backing : Surface W → Bool × Surface W
  wrap_client_backing s =
      if classify_backing s == 1
      then wrap_new (release_backing s)
      else if classify_backing s == 2
      then (if s.memory.gart_ptr == 1 then (true, s) else wrap_new (release_backing s))
      else wrap_new s

  unfoldable pub alloc_gmr_backing : Surface W → Bool × Surface W
  alloc_gmr_backing s =
      let (ok, w) = k.kernel_md s.memory.size s.transfer.world in
      if not ok
      then (false, in_world w s)
      else adopt 0 (in_world w (record s { memory = record s.memory { offset = 0 } }))

  -- allocBacking, from the request for video memory on.
  unfoldable pub alloc_new : Surface W → Bool × Surface W
  alloc_new s =
      let (p, w) = k.vram_realloc s.memory.self s.scale.byte_size s.transfer.world in
      let t = record (in_world w s) {
        memory = record s.memory { self = p; size = s.scale.byte_size };
      } in
      if p == 0 then alloc_gmr_backing t else (
        true,
        with_buffer (record s.transfer.buffer { gmr_id = gmr_vram; fence = 0 })
            (record t {
              memory = record t.memory { offset = (p + 2 ^ 64 - s.screen.client_addr) % 2 ^ 64 };
            }),
      )

  -- Memory of the kernel that has to grow: the maps and the region go, the block is kept.
  unfoldable pub drop_region : Surface W → Surface W
  drop_region s =
      let t = release_map1 (release_map0 s) in
      record t { transfer = discard k.provider (complete (some k.provider) t.transfer) }

  unfoldable pub alloc_backing : Surface W → Bool × Surface W
  alloc_backing s =
      if not (s.client.addr == 0)
      then wrap_client_backing s
      else if classify_backing s == 1
      then (if not (ltb s.memory.size s.scale.byte_size)
          then (true, s)
          else alloc_new (drop_region s))
      else if classify_backing s == 2
      then alloc_new (release_backing s)
      else alloc_new s

  -- mapBacking at 0 and at 1.
  abbrev pub new_map : (task : ℕ) → Surface W → ℕ × W
  new_map task s =
      if not (s.memory.self == 0)
      then k.map_vram task s.memory.offset s.memory.size s.transfer.world
      else if s.transfer.buffer.has_md
      then k.map_md task s.transfer.world
      else (0, s.transfer.world)

  unfoldable pub map_backing0 : (task : ℕ) → Surface W → Bool × Surface W
  map_backing0 task s =
      let (m, w) = new_map task s in
      if not (s.memory.map0 == 0)
      then (true, s)
      else (not (m == 0), record (in_world w s) { memory = record s.memory { map0 = m } })

  unfoldable pub map_backing1 : (task : ℕ) → Surface W → Bool × Surface W
  map_backing1 task s =
      let (m, w) = new_map task s in
      if not (s.memory.map1 == 0)
      then (true, s)
      else (not (m == 0), record (in_world w s) { memory = record s.memory { map1 = m } })
