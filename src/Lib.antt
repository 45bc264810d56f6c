-- ===== src/Lib.antt =====
-- Awase: the C code of three kernel modules, drawfs for graphics, inputfs for input devices and
-- audiofs for sound.
--
-- drawfs is a character device, /dev/draw. A client opens a session, writes frames of messages to
-- it, and reads frames of replies and events from it. `drawfs_write` appends bytes to the session's
-- input buffer (`drawfs_ingest_bytes`), takes whole frames out of it (`drawfs_try_process_inbuf`),
-- and carries out their messages (`drawfs_process_frame`), which create, destroy and present
-- surfaces and answer through an outbound queue of events (`drawfs_send_reply`,
-- `drawfs_enqueue_event`). `drawfs_read` takes events off that queue. A surface gets its memory, a
-- virtual-memory object, when it is first mapped (`drawfs_surface_get_vmobj`).
--
-- inputfs publishes what input devices do in two buffers that user space maps. The state region has
-- the inventory of devices and the pointer (`inputfs_state_*`), the event ring the newest 1024 events
-- (`inputfs_events_publish`). A keyboard's report becomes events for the keys that changed
-- (`inputfs_keyboard_diff_emit`), which carry the session that the compositor gave the keyboard
-- (`inputfs_focus_keyboard_session`), and scancodes in a ring from which kbdmux reads
-- (`inputfs_kbd_*`). Coordinates are smoothed one axis at a time before they are published.
--
-- audiofs plays on the output stream of an HD Audio controller. A consumer opens /dev/audiofs<N>,
-- which begins the stream (`audiofs_stream_begin`), and writes bytes into a ring
-- (`audiofs_cdev_write`). The hardware plays a buffer of four fragments round and round, and
-- interrupts at the end of each; the thread of the interrupt (`audiofs_intr_thread`) counts what was
-- played and refills the fragments from the ring, with silence where the ring has too little. That
-- is an underrun, which a task publishes (`audiofs_xrun_task`). Closing the device ends the stream
-- (`audiofs_stream_end`), or leaves it to the built-in tone.
--
-- Which file models which part:
--   Drawfs/Proto     drawfs/sys/dev/drawfs/drawfs_proto.h and drawfs.h: structures and constants
--   Drawfs/Frame     drawfs_frame.c: validating and building frames
--   Drawfs/Session   drawfs_internal.h, drawfs_ioctl.h and the tunables of drawfs.c: the state
--   Drawfs/Queue     drawfs.c: the queue of events, reading, polling, coalescing
--   Drawfs/Surface   drawfs_surface.c: surfaces and their backing objects
--   Drawfs/Reply     drawfs.c: the functions drawfs_reply_*
--   Drawfs/Dispatch  drawfs.c: drawfs_process_frame
--   Drawfs/Inbuf     drawfs.c: drawfs_try_process_inbuf
--   Drawfs/Ingest    drawfs.c: drawfs_ingest_bytes and drawfs_write
--   Drawfs/Device    drawfs.c: opening and freeing a session, mapping, and the ioctls on sessions
--   Drawfs/Efifb     drawfs_efifb.c and the blit ioctl of drawfs.c: the EFI framebuffer
--   Inputfs/Smooth   inputfs/sys/dev/inputfs/inputfs_smooth.c: the exponential moving average
--   Inputfs/Events   inputfs.c: the event ring
--   Inputfs/State    inputfs.c: the state region
--   Inputfs/Attach   inputfs.c: attaching and detaching a device, as the two buffers show it
--   Inputfs/Focus    inputfs.c: the session of the keyboard, and of a pointer event
--   Inputfs/Keyboard inputfs.c: from a keyboard's report to events and scancodes
--   Inputfs/Parser   inputfs_parser.c: finding the fields of reports, and reading them
--   Inputfs/Digitizer   inputfs.c: from the coordinates of a touch pad to pixels
--   Inputfs/Kbdmux   inputfs_kbdmux.c: the scancode ring, the table, and the calls of kbdmux
--   Audiofs/Ring     audiofs/sys/dev/audiofs/audiofs.c: the ring of the bytes to play, writing, polling
--   Audiofs/Format   audiofs.c: words of the hardware for rates, and the rates of a codec
--   Audiofs/Codec    audiofs.c: connection lists, paths through widgets, the choice of a converter
--   Audiofs/Commands audiofs.c: commands to the codecs, and their responses
--   Audiofs/Softc    audiofs.c: the state of a controller, the clock, positions in the buffer
--   Audiofs/Interrupt   audiofs.c: the interrupt, its refills, and the task for underruns
--   Audiofs/Stream   audiofs.c: configuring, beginning and ending a stream, opening and closing
--   Audiofs/Control  audiofs.c: asking for and setting the format, the tone's variable, detaching
-- The modules below each of these, and Drawfs/Invariant, hold proofs; Drawfs/Tests,
-- Inputfs/Tests and Audiofs/Tests hold runs and applications at concrete inputs; Base holds what all share. A
-- definition has the name of the C function without its prefix (`drawfs_`, `inputfs_state_`,
-- `audiofs_`, ...);
-- each file's comments name the code where the names differ.
--
-- How the code is modelled. A structure is a record with the source's fields. A function takes the
-- session, or `State`, the session with the module's counters, and returns its results with the
-- new one. Memory is a list of bytes; of the input buffer the list holds the bytes that have been
-- written, `in_cap` the size of the allocation. Widths of 16, 32 and 64 bits are `u16`, `u32` and
-- `u64`, written where the code can wrap; `size_t` has 64 bits. Numbers are little-endian.
-- Signed numbers are `ℤ` in Inputfs/Smooth, with the conversion to 32 bits written out, and bit
-- patterns below 2 ^ 32 in the other modules of inputfs, whose sums wrap as the kernel's do. Globals
-- are arguments: `Ring` for those of the event ring, the buffer itself for those of the state region.
-- The clocks, the kernel's facts about a device, the constants of kbio.h, and
-- the HID library applied to a device's descriptor, `Hid`, are parameters. Of audiofs, the positions
-- and status bits that are read from the hardware, the addresses that allocations of DMA memory give
-- (`Answers`), and the bits for rates of the kernel's header (`Masks`) are parameters; the registers
-- are the two switches that the driver sets (`Regs`), and events and commands to the codecs are
-- gathered in lists.
--
-- Concurrency. What runs under one hold of the session's lock is one step. Where the code gives the
-- lock up for an allocation, or before an input event is sent, the model takes what other threads
-- do there as a function on the state: `meanwhile` of `get_vmobj` and of `inject_input`, and one
-- element of `Windows` for each such point of a write. Between the other holds of the
-- lock of one write no other thread acts. In inputfs every call runs under the module's spin lock and
-- is one step; the scancode ring has one writer and one reader, whose calls are steps as well. A
-- write to audiofs gives the ring's lock up to sleep and to copy: a `Window` is how many fragments the
-- interrupt's thread fills there. Other calls on a stream are steps, and `intr_thread` takes
-- what happens behind its guard as a function on the state, which the theorems take to be nothing.
--
-- Loops. The loop over the messages of a frame has fuel of one more than the frame's bytes, since
-- a message has at least 16. A write's fuel is a parameter, and `enough` of
-- Drawfs/Invariant/Writes suffices: a round takes bytes out of the input buffer, which holds at
-- most 1 MiB, or passes one of the windows. The doubling of the buffer has the size needed as fuel.
-- A write to audiofs has more fuel than bytes and windows, since a round copies a frame or passes a
-- window. The refills of one interrupt have the fuel 4, more than the three rounds that they take
-- where the position lies in the buffer; for one behind its end the loop of the code does not end.
-- A flush of responses has at least the size of their ring as fuel.
--
-- Not modelled: allocations that sleep do not fail, and `uiomove` copies in whole; wakeups of
-- readers; the DRM backend, which is not built by default; the device's registration, the sysctl
-- handlers, the ioctl that reports the framebuffer's geometry, and finding the framebuffer at load
-- time. The reply on displays takes what the framebuffer's accessors return as the parameter
-- `Display`. `vm_pager_allocate` and `copyin` are parameters. Of inputfs, the One-Euro filter,
-- attaching devices but for what the buffers show, the interrupt handler with the touch events, the
-- files that the buffers are written to, and the registration of the scancode keyboard are outside
-- this development, as are the Zig programs. A reader of a buffer that is being written
-- to is not modelled. Of audiofs, the state file, the slots of the event ring, amplifiers
-- and pins, attaching, and the log for diagnosis are left out;
-- of detaching, the stream's part is modelled. The list of descriptors has no contents in the model.
pub mod Base
pub mod Drawfs
pub mod Inputfs
pub mod Audiofs
