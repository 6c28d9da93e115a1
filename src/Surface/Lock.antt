-- ===== src/Surface/Lock.antt =====
-- VMsvga2Surface.cpp: the three locks on a surface, under which its memory is made and mapped.
use docker_macos.Base.{
  ℕ, ◌+◌, ◌/◌, ◌%◌, ◌^◌, Bool, true, false, not, ◌&&◌, ◌||◌, Option, none, some, ◌==◌,
  if◌then◌else◌,
}
use docker_macos.Transfer.{sync}
use docker_macos.Surface.{
  Kernel, Surface, PixelFormat, Status, success, bad_argument, not_ready, cannot_lock, no_memory,
  in_world, is_backing_valid, alloc_backing, map_backing0, map_backing1, release_map0, release_map1,
}
use docker_macos.Surface.Shape.{is_client_backing_valid, is_source_valid}

-- IOAccelSurfaceInformation; the colour temperature is a constant.
pub record Info : Type 0 where
  pub address : ℕ
  pub width : ℕ
  pub height : ℕ
  pub row_bytes : ℕ
  pub pixel_format : PixelFormat

unfoldable pub calculate_surface_information : {W : Type 0} → Surface W → Info
calculate_surface_information s = record {
  address =
      ((if is_client_backing_valid s then s.client.addr else s.memory.map0) + s.scale.buffer_offset)
      % 2 ^ 64;
  width = s.scale.buffer.w;
  height = s.scale.buffer.h;
  row_bytes = s.scale.pitch;
  pixel_format = s.format.pixel_format;
}

module _ {W : Type 0} where
  abbrev pub set_read : Bool → Surface W → Surface W
  set_read b s = record s { locks = record s.locks { read = b } }

  abbrev pub set_write : Bool → Surface W → Surface W
  set_write b s = record s { locks = record s.locks { write = b } }

  abbrev pub set_context : Bool → Surface W → Surface W
  set_context b s = record s { locks = record s.locks { context = b } }

-- 128 >> vmSurfaceLockRead and 128 >> vmSurfaceLockWrite
unfoldable pub surface_query_lock : {W : Type 0} → Surface W → Status
surface_query_lock s = if s.locks.read || s.locks.write then cannot_lock else success

unfoldable pub surface_read_unlock : {W : Type 0} → Surface W → Status × Surface W
surface_read_unlock s = (success, set_read false s)

unfoldable pub surface_write_unlock : {W : Type 0} → Surface W → Status × Surface W
surface_write_unlock s = (success, set_write false s)

-- The pixel of clear_yuv_to_black.
unfoldable pub black_pixel : (vmware_pixel_format : ℕ) → Option ℕ
black_pixel vmware_pixel_format =
    if vmware_pixel_format == 0x5956_5955
    then some 0x1080_1080
    else if vmware_pixel_format == 0x3259_5559
    then some 0x8010_8010
    else none

module _ {W : Type 0} (k : Kernel W) where
  -- `allocBacking() && mapBacking(m_owning_task, 0U)`
  unfoldable pub map_memory : Surface W → Bool × Surface W
  map_memory s =
      let (ok, t) = alloc_backing k s in if ok then map_backing0 k s.owning_task t else (false, t)

  unfoldable pub map_for_context : (task : ℕ) → Surface W → Bool × Surface W
  map_for_context task s =
      let (ok, t) = alloc_backing k s in if ok then map_backing1 k task t else (false, t)

  -- `fits` says whether the caller's structure is there and large enough.
  unfoldable pub surface_read_lock : (fits : Bool) → Surface W → Status × Option Info × Surface W
  surface_read_lock fits s =
      let (ok, t) = map_memory (set_read true s) in
      if not fits
      then (bad_argument, none, s)
      else if not (s.flags.have_id && is_source_valid s)
      then (not_ready, none, s)
      else if s.locks.read
      then (cannot_lock, none, s)
      else if is_client_backing_valid s
      then (success, some (calculate_surface_information s), set_read true s)
      else if ok
      then (success, some (calculate_surface_information t), t)
      else (no_memory, none, set_read false t)

  -- From the label finishup on: memory that is not packed is given out once its transfers are over.
  unfoldable pub finish_write : Surface W → Status × Option Info × Surface W
  finish_write s =
      let t = record s { transfer = sync (some k.provider) s.transfer } in
      (
        success,
        some (calculate_surface_information s),
        (if s.scale.buffer_offset == 0 then t else s),
      )

  -- From the label skip on.
  unfoldable pub write_locked : Surface W → Status × Option Info × Surface W
  write_locked s =
      let (ok, t) = map_memory s in
      if is_client_backing_valid s
      then finish_write s
      else if ok
      then finish_write t
      else (no_memory, none, set_write false t)

  unfoldable pub surface_write_lock : (fits : Bool) → Surface W → Status × Option Info × Surface W
  surface_write_lock fits s =
      if not fits
      then (bad_argument, none, s)
      else if not (s.flags.have_id && is_source_valid s)
      then (not_ready, none, s)
      else if s.flags.skip_write_lock_once
      then write_locked (record s { flags = record s.flags { skip_write_lock_once = false } })
      else if s.locks.write
      then (cannot_lock, none, s)
      else write_locked (set_write true s)

  -- clear_yuv_to_black at a map of `size` bytes.
  unfoldable pub clear_yuv_to_black : (map size : ℕ) → Surface W → Surface W
  clear_yuv_to_black map size s = elim (black_pixel s.video.vmware_pixel_format) [
    | none ↦ s
    | some pixval ↦ in_world (k.fill map pixval (size / 4) s.transfer.world) s
  ]

  -- The surface without the memory descriptor of the trick.
  abbrev pub drop_trick : Surface W → Surface W
  drop_trick s = in_world (k.pageable_release s.transfer.world) s

  -- With a map in the kernel: what the window server sees becomes black.
  unfoldable pub show_black : (map : ℕ) → Surface W → Status × Surface W
  show_black map s =
      let cleared = clear_yuv_to_black map s.memory.size s in
      let free =
        in_world (k.pageable_complete (k.release_map map cleared.transfer.world)) cleared in
      let bare = release_map0 k free in
      let (m, w) = k.pageable_map s.owning_task bare.transfer.world in
      (success, drop_trick (record (in_world w bare) { memory = record bare.memory { map0 = m } }))

  unfoldable pub setup_trick_buffer : Surface W → Status × Surface W
  setup_trick_buffer s =
      let (ok, w) = k.pageable_md s.memory.size s.transfer.world in
      let (rc, w') = k.pageable_prepare w in
      let (m, w'') = k.pageable_map 0 w' in
      if not (is_backing_valid s)
      then (not_ready, s)
      else if not ok
      then (no_memory, in_world w s)
      else if not (rc == 0)
      then (no_memory, drop_trick (in_world w' s))
      else if m == 0
      then (no_memory, drop_trick (in_world (k.pageable_complete w'') s))
      else show_black m (in_world w'' s)

  -- The address and the row bytes.
  unfoldable pub context_lock_memory :
      (fits : Bool) (task : ℕ) → Surface W → Status × Option (ℕ × ℕ) × Surface W
  context_lock_memory fits task s =
      let (ok, t) = map_for_context task (set_context true s) in
      let w = t.transfer.world in
      let u =
        if t.flags.video_mode && (k.have_screen w || not (k.have_3d w))
        then (setup_trick_buffer t).1
        else t in
      if not fits
      then (bad_argument, none, s)
      else if not (s.flags.have_id && is_source_valid s)
      then (not_ready, none, s)
      else if s.locks.context
      then (cannot_lock, none, s)
      else if ok
      then (success, some (u.memory.map1, u.scale.pitch), u)
      else (no_memory, none, set_context false t)

  unfoldable pub context_unlock_memory : Surface W → Status × Surface W
  context_unlock_memory s = (success, release_map1 k (set_context false s))
