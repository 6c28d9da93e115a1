-- ===== src/Lib.antt =====
-- docker-macos: the display drivers of the macOS guest.
--
-- The C++ of the repository is a set of kernel extensions for a VMware SVGA II adapter. The driver
-- kexts/VMsvga2 talks to the adapter through registers and a FIFO of commands in shared memory.
-- SVGADevice (FB/SVGADevice.cpp) owns both; the framebuffer (FB/VMsvga2.cpp) and the accelerator
-- (AC/VMsvga2Accel.cpp) send their commands through it, those of the 3D protocol by way of
-- SVGA3D (AC/SVGA3D.cpp).
--
-- The files:
--   Base and its children: shared types, Boolean tests, lists with native indices, memories as
--     functions from an index to a value, arithmetic of a uint32_t.
--   Ring: windows of a ring of dwords, and what a write into it leaves. No code is modelled here.
--   Svga: kexts/VMsvga2/FB/SVGADevice.h and .cpp. `Device` is the object with the FIFO memory and
--   the state `H` of the adapter. The adapter is not under the repository, so it is a parameter
--     `Host`: what a register write or read does to `H` and the FIFO. It acts at register accesses
--   only; what it does between them is seen at the next one.
--   Svga.Fifo has FIFOInit, FIFOReserve, FIFOCommit and their relatives, Svga.Fence the fences,
--   Svga.Commands the commands for rectangles and guest memory regions, Svga.Cursor and Svga.Mode
--   the cursor and SetMode, Svga.Video the overlay, Svga.Regs the numbers. Svga.Fifo.Stream has
--   sequences of commands.
--   Svga3d: kexts/VMsvga2/AC/SVGA3D.cpp.
--   Allocator: kexts/VMsvga2/AC/VMsvga2Allocator.h and .cpp, the buddy allocator of video memory.
--     Allocator.Ranges has the bit map, Allocator.Merge Free, Realloc and Check, the others proofs.
--   Accel: the blits, the memory regions, and the methods for surfaces, contexts and drawing of
--     kexts/VMsvga2/AC/VMsvga2Accel.cpp. Accel.Chain has the pages of descriptors of createGMR and
--     the reader of them that svga_reg.h describes; its fuel is twice the number of segments and one.
--   Surface: kexts/VMsvga2/AC/UC/VMsvga2Surface.h and .cpp, a surface of the window server. IOKit and
--     the accelerator are a record of operations, `Kernel`. Surface.Calls has the calls of a surface,
--     Surface.Backing, Surface.Sound, Surface.Exclusion, Surface.Bounds, Surface.Returned and
--     Surface.Life the proofs.
--   Transfer: kexts/VMsvga2/AC/VendorTransferBuffer.h and .cpp, and FenceTracker.h. IOKit's memory
--     descriptor and the regions of the accelerator are a record of operations, `Provider`.
--   Ids: the identifiers of kexts/VMsvga2/AC/VMsvga2Accel.cpp. A word is the list of its bits.
--   Framebuffer: the modes and cursor images of kexts/VMsvga2/FB/VMsvga2.cpp, with the table of
--     modes.cpp.
--   QemuDisplay: kexts/QEMUDisplay/src/QEMUDisplay.cpp, a framebuffer of its own for the same
--     adapter in VGA mode.
--   Patcher: kexts/QEMUDisplayPatcher/src/patcher.cpp, which puts methods like those of QEMUDisplay
--     in place of the ones of Apple's framebuffer; the originals are arguments.
--
-- Conventions. The FIFO and the bounce buffer are functions from a dword index; byte offsets and
-- sizes are natural numbers, a uint32_t sum or difference is `add32` or `sub32`. A pointer that
-- FIFOReserve returns is a `Pointer`, an offset into the FIFO or the bounce buffer. A method that
-- polls the adapter has fuel and gives `none` when it runs out; `Drains` is the documented
-- behaviour of the adapter with which the fuel is enough: a synchronised adapter reads at least one
-- pending dword, and writes no other part of the ring. The fuel that is enough is the number of
-- pending dwords plus one. `IsFifo` is the well-formedness of the four positions of the FIFO; it
-- asks for SVGA_FIFO_MAX below 2 ^ 31, so that no sum of positions wraps.
--
-- The pool of the allocator is a function from a dword index, its bit map a function to bytes of
-- eight bits. The loop of toFree has one round of fuel for each block of its range, the loops over
-- sizes one for each size. `Allocator.Valid.IsValid` says when the free lists are sound: each is a
-- doubly linked list in the memory of the pool, and each free block lies in the pool at a multiple
-- of its size, has clear bits, and shares nothing with another.
--
-- Not modelled: locks, logging, IOKit registration, the maps of PCI memory; the output
-- of surfaces to the screen, the contexts of OpenGL and of video decoding, and the user-space bundles, which the
-- manifest lists.
pub mod Accel
pub mod Surface
pub mod Allocator
pub mod Base
pub mod Ring
pub mod Svga
pub mod Transfer
pub mod Svga3d
pub mod QemuDisplay
pub mod Patcher
pub mod Ids
pub mod Framebuffer
