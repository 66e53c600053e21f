-- ===== src/Lib.antt =====
-- Verification of the core of TPA, a runtime that runs processes on the harts of a device: each
-- process is a chain of continuations, and processes send messages to each other over channels.
--
-- The parts of the program and the files that model them:
--   State.antt       the structs of tpa/lib/include/tpa/*.h, the static variables of the library and
--                    the memory, as one record `World`; commands over it (`Cmd`), which return, hang
--                    in the endless loop of `channel_bug`, or still poll a shared variable
--   Hal.antt         the atomic operations of tpa/hal, as functions from the old contents of a cell
--   Process.antt     tpa/lib/src/process.c: process objects, the table of processes by hart and slot,
--                    mailboxes (`tpa_process_register` is `register`, `tpa_process_lookup` is
--                    `lookup`, `tpa_process_complete_wait` is `complete_wait`, and so on)
--   Sched.antt       tpa/lib/src/scheduler.c: the run queue of each hart, its ready bits and its bell
--                    (`tpa_sched_run` is `run`, `tpa_sched_pop` is `pop`)
--   Channel.antt     tpa/lib/src/channel.c: rendezvous between a sender and a receiver
--                    (`tpa_channel_send` is `send`, `tpa_channel_recv` is `recv`)
--   Runtime.antt     tpa/lib/src/tpa_runtime.c: the callbacks that channels reach the scheduler and
--                    the processes by, and what a process may ask for
--   Boot.antt        tpa/lib/src/tpa_runtime.c: `tpa_init` and `tpa_boot_hart`
--   Step.antt        tpa/lib/src/tpa_runtime.c: `tpa_reload`, `tpa_runq_pop` and `tpa_step`
--   Device.antt      tpa-device/runtime/tpa_scheduler.c: the main loop of a hart
--   Hal/Erbium.antt, Hal/Etsoc1.antt
--                    tpa/hal/erbium, tpa/hal/etsoc1: the harts, the kinds of channels between them,
--                    and on Erbium the cache lines that a flush visits
--   Depth.antt       depth/stereo_sad_common.h: images, stripes and costs of the stereo matcher;
--                    Depth/Packet.antt and Depth/Program.antt model depth/stereo_sad.c, its packets
--                    and the programs of its processes
--   Protocol.antt    tpa/lib/src/channel.c once more, one shared access at a time: the sender and the
--                    receiver of a channel, which run at once
--   Wake.antt        tpa/lib/src/scheduler.c and tpa-device/runtime/tpa_scheduler.c once more, one
--                    shared access at a time: a hart that goes to sleep against any number of harts
--                    that wake it
--   Pipe.antt        kernels/tpa_pipe_demo.c: the programs of a source, two stages, a sink and a
--                    checker
--   Yolo.antt        yolov5n/yolov5n_common.c: what the stages of the network share. Yolo/Bytes.antt
--                    models the vector operations, Yolo/Arena.antt the scratch memory of a hart
--                    (`yolov5n_arena_alloc` is `arena_alloc`), Yolo/Pack.antt the rows for the tensor
--                    unit, Yolo/Conv.antt the convolutions on the unit, Yolo/Pool.antt,
--                    Yolo/Join.antt and Yolo/Residual.antt the operations on tensors
--                    (`yolov5n_concat2` is `concat2`, and so on)
--                    Yolo/Stage.antt models yolov5n/yolov5n_p0.c, the first stage of the network
--   Attention.antt   attention/: the packets, the arithmetic and the reference of the attention
--                    pipeline; Attention/Unit.antt models attention_et.h over a tensor unit that is a
--                    parameter, Attention/Program.antt and Attention/Program/Output.antt the programs
--                    of the generator, the scores, the softmax and the output
--                    (`attention_score_send` is `score_send`, and so on)
--   Tests.antt       a small machine, on which the theorems are applied
-- The children of a module hold its theorems, named for what they are about.
--
-- How they interact. A step runs a continuation and carries out the operation that it returns. A
-- send or a receive goes to the channel, which knows the runtime only as a record of callbacks
-- (`ChannelRuntime`). The theorems on channels hold over any record that keeps `RuntimeLaws`, and
-- the callbacks of the runtime are shown to keep them. A callback marks the other side's ready bit
-- and rings its bell; the other hart takes the bit in `reload`, completes the mailbox of the process
-- and puts it into its run queue.
--
-- Bounds. Pointers and continuations are numbers, and 0 is the null pointer; a pointed-to struct
-- is an entry of a function from pointers. The loops that poll a shared variable (the lock of a run
-- queue, the state of a channel, the flag of `tpa_init`) run for `retries` rounds and one more, and
-- are `spinning` after that; the theorems that say that an operation returns hold for every
-- `retries`, the first look being enough. The loop over the ready bits has 65 rounds for a word of
-- 64 bits, which is shown to be enough. Integers are natural numbers, with the wrap-around of the C
-- type written where an operation can reach it.
--
-- Not modelled: what caches do to values (flushes, evictions and fences are events of a log), the
-- layout of structs in memory, and the programs that the processes run (a parameter, `code`, of
-- the step; those of the stereo matcher, the pipe demo and the attention pipeline are modelled by
-- themselves). A call of the library is one transition of the state; only in Protocol.antt and
-- Wake.antt do harts interleave inside of calls. Of the network, the tables that are computed in
-- floating point and the other stages are not modelled; what the tensor unit's instructions do is
-- a parameter, with its documented behaviour (`Convolves`, for the alignments and strides that the
-- instructions take, and `Multiplies` for the attention pipeline, where the product is any that
-- reads a row and a column) as the hypothesis of the theorems on it. The vector instructions are modelled as
-- moving and comparing eight bytes, as the names of the C functions around them say; their
-- addresses are natural numbers, which do not wrap around. The 32-bit arithmetic of the packing of
-- a convolution is modelled with its wrap-around, and shown not to wrap for the sizes `InWords`.
pub mod Base
pub mod State
pub mod Hal
pub mod Process
pub mod Sched
pub mod Channel
pub mod Runtime
pub mod Boot
pub mod Step
pub mod Device
pub mod Depth
pub mod Wake
pub mod Protocol
pub mod Pipe
pub mod Attention
pub mod Yolo
pub mod Tests
