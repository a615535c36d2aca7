-- ===== src/Lib.antt =====
-- The kernel modules of this repository: qvio, a V4L2 driver for capture boards that moves frames
-- with libxdma, and qdmabuf, which allocates DMA buffers and exports them as dma-bufs; the daemons
-- qviod and qvio-ctl of samples, which answer the jobs of qvio; and the other programs of samples,
-- which use the two drivers.
--
-- How the parts of modules/qvio work together. A `qvio_video` (video.c) answers the V4L2 handlers
-- and holds a `qvio_queue` (queue.c) and a `qvio_user_job_ctrl` (user_job.c). Setting a format
-- stores it in the device, passes it to the queue, and posts a job to the daemon that sits behind
-- the job descriptor. The queue sizes and checks buffers by its format, keeps those that vb2
-- handed over in a list, submits them to libxdma when streaming starts, and returns them to vb2 as
-- their transfers end.
--
-- Qvio/Format.antt: `v4l2_format` and the enumerations, cut to the values that the driver tests.
-- Qvio/Queue.antt: `qvio_queue`; `queue_setup`, `buf_prepare`, `buf_finish`, `buf_queue` are
-- `__queue_setup` and so on; `queue_start`, `queue_s_fmt` and their like drop the prefix `qvio_`.
-- Qvio/Queue/Prepare.antt has `buf_prepare`, Qvio/Queue/Sizes.antt the proofs on buffer sizes.
-- Qvio/Scatter.antt: `vmalloc_dma_map_sg`, `__buf_init`, `__buf_cleanup`; proofs in
-- Qvio/Scatter/Cover.antt.
-- Qvio/Streaming.antt: `__start_streaming`, `__stop_streaming`, `__io_done`, `__read_one_frame`; a
-- `Stream` is the queue, the board's control register, the buffers that libxdma has, and what was
-- returned to vb2. Proofs: Register on the register, Buffers on who has a buffer, Frames on
-- histories, and Frames/Conserved on the buffers in them. Qvio/Streaming/Thread.antt:
-- `__stream_main`, a thread that nothing starts at present; proofs in Thread/Kept.
-- Qvio/UserJob.antt: all of user_job.c, with `request` the common body of the `qvio_user_job_*`
-- functions. Proofs: Channel on histories of callers and daemon, Request on one request, Teardown
-- on `qvio_user_job_stop`, Daemon on a daemon that keeps answering.
-- Qvio/Ioctl.antt: ioctl.c, every request of the node as one function; Qvio/Ioctl/History.antt has
-- the whole life of a device as a list of events.
-- Qvio/Video.antt: `qvio_video`; Start, Formats and Handlers have `qvio_video_start`, the format
-- handlers and the other handlers. Proofs: Negotiate, Lifecycle, Enumerate.
-- Qvio/Board.antt: `qvio_device` of device.c, with Limits on `qvio_device_xdma_open`;
-- Qvio/Board/Probe.antt: the probes and removals of pci_device.c and platform_device.c, with
-- Balance on what they leave held. Qvio/Pci.antt: the file operations and error handlers of
-- pci_device.c, and module.c; proofs in Access and Recovery. Qvio/Platform.antt: the registration
-- of platform_device.c, which module.c leaves out.
-- Cdev.antt: cdev.c of both modules, the registry of character devices and the device of a board.
--
-- How the parts of modules/qdmabuf work together. The module adds one platform device, whose probe
-- makes a character device. A request on it (ioctl.c) goes to one of three exporters, which builds
-- a buffer and returns a descriptor; importers attach to the buffer and map it, and user space
-- maps its memory.
--
-- Qdmabuf/Command.antt: ioctl.c and the dispatch of cdev.c; proofs in Served. Qdmabuf/Device.antt:
-- device.c and module.c; proofs in Loaded.
-- Qdmabuf/Pages.antt: `exp_dma_sg_alloc_compacted`; Qdmabuf/Export.antt: the three
-- `qdmabuf_dmabuf_alloc_*` functions over the resources of Qdmabuf/Ledger.antt, and
-- Qdmabuf/Export/Built.antt the scatter-gather one with the pages of its buffer;
-- Qdmabuf/Attach.antt: attach, map and detach of an importer, and Qdmabuf/Attach/Vmalloc.antt the
-- attachment to a buffer of `vmalloc_user`. Qdmabuf/Cpu.antt: `begin_cpu_access`, `end_cpu_access`
-- and `vmap` of the exporters. Qdmabuf/Ops.antt: the `dma_buf_ops` of each exporter, with an
-- importer's life in Detached and the pages of `vmalloc` memory in Attach/Vmalloc/Pages.
-- Qdmabuf/Refs.antt: dmabuf_exp.c and the reference count of a buffer. Proofs in Filled, Outcomes,
-- Mapping and Alive.
-- Qviod.antt: the daemon of samples/04_qviod, which reads jobs from the job descriptor of qvio and
-- answers them; proofs in Agreement. Qviod/Run.antt: its whole run, with the moves of the driver
-- between the rounds, and proofs on its descriptors in Run/Closed.
-- QvioCtl.antt: the daemon of samples/03_qvio-ctl, which maps the buffers of qvio and fills them
-- with the scaled frames of a camera: `App`, the handlers `vid_user_job_*`, the table `mbuffers`
-- of mapped buffers, and the tasks that the handlers defer. QvioCtl/Schedule.antt: its two threads
-- as a sequence of steps; Serve: `OpenVidRx` and the loop of `VidUserJobHandling`; Source and
-- Source/Loop: `VidSrc_Main`, the thread that takes the camera's frames; Copy: the copying of
-- `VidUserJob_BUF_DONE`, with the areas that the kernels of samples/common/ZzCUDA.cu touch;
-- Pixels: those kernels, byte by byte. Proofs: Table, Tasks and Ledger on what is mapped, in the
-- order of requests that Usage describes; Deferral and StartStop on when a task runs; Alike and
-- Runs on the two daemons; Source/Unwind, Source/Stages and Source/Release on what the camera's
-- thread gives back; Source/InTurn on the order of frames; Copy/Areas and Copy/Bounds on where the
-- copying reads and writes; Pixels/Stores and Pixels/Planes on what the kernels store.
-- DeferredTasks.antt: samples/common/ZzDeferredTasks.cpp, the queue of tasks with a thread of its
-- own, and the `FreeStack` of ZzUtils.cpp; proofs in Drain.
-- QdmabufCtl.antt: samples/02_qdmabuf-ctl, which allocates, maps and closes buffers of the vmalloc
-- exporter; proofs in Mappings.
-- UserCtrl.antt: the access to a board's I2C controller in samples/05_user-ctrl; proofs in
-- Protocol. UserCtrl/Session.antt: the rest of that program, which opens the node and changes
-- registers on a key; proofs in Closures, Closed and Commands.
-- V4lCtl.antt: samples/01_v4l-ctl, which makes V4L2 calls on a key; V4lCtl/Loops.antt: its loops
-- that take frames, and `Run`. Proofs: Kept and Released on what it gives back, Frames and Stored
-- on the frames that it writes to files, Rated on its statistics. ZzUtils.antt: the statistics and
-- `TestLoop` of samples/common/ZzUtils.cpp; proofs in Accounted and Always.
-- Kernel.antt: error numbers, results, and `ALIGN` as an interface with the laws of its
-- documentation. Prelude.antt and the files below it: shared names, tests, lists and bits of
-- words. Tests.antt and the files below it: fixed runs, and the results below at concrete inputs.
--
-- Conventions. Numbers are natural numbers; an `unsigned int` product is cut with `u32`. What a
-- call of the kernel, of vb2 or of libxdma returns is an argument of the function that makes it, a
-- record of outcomes where there are many. A section under a lock is one step. Errors are values
-- of `Ret`, with the sign that the source gives them. Reads of freed memory, double frees and
-- entries of empty lists are results of their own. Where an `int` or a count in `unsigned int` may
-- exceed its type, the model has a result for that, or computes an address from the 32 bits.
--
-- Fuel. `alloc_compacted` runs on one round for each byte of the buffer, which is enough since
-- each round takes at least one page off. The loop of DeferredTasks.antt takes one round for each
-- task that waits and one more. The loops of UserCtrl.antt that wait for a status count the tries
-- that the source allows.
--
-- Not modelled: libxdma.c and xdma_thread.c, a copy of another project, whose results are
-- arguments; modules/qvcam, a copy of another project; debugging output; the scaling of images,
-- which is NPP's; the parts of qdmabuf-ctl that are switched off or stand behind a build option;
-- `MmapWriteTest` and `MmapReadTest` of v4l-ctl, which nothing calls; delays, and the timeouts of
-- `TestLoop`.
pub mod Prelude
pub mod Kernel
pub mod Cdev
pub mod Qviod
pub mod UserCtrl
pub mod DeferredTasks
pub mod ZzUtils
pub mod V4lCtl
pub mod QvioCtl
pub mod QdmabufCtl
pub mod Qdmabuf
pub mod Qvio
pub mod Tests
