-- ===== src/Runtime/Promises.antt =====
-- What tpa_runtime.c promises to channel.c with its callbacks, that of failure included.
use tpa.Base.{ℕ, ◌≡◌, refl, some}
use tpa.State.{trace, World, emit, Config}
use tpa.State.Returns.{Hangs}
use tpa.Channel.{ChannelRuntime, channel_bug}
use tpa.Channel.Laws.{RuntimeLaws}
use tpa.Runtime.{channel_rt}
use tpa.Runtime.Laws.{channel_rt-RuntimeLaws}
use tpa.Runtime.Faults.{fail-failed, fail-chans}

-- Every callback is there and keeps the laws; `channel_bug` ends in its endless loop, after it has
-- made the runtime fail and with no channel changed; a tag that is traced is written out.
pub record KeepsPromises (cfg : Config) (rt : ChannelRuntime) : Type 0 where
  pub laws : RuntimeLaws cfg rt
  pub bug :
      (w : World) → Hangs {A = ℕ} (λ v. (v.failed ≡ 1) × (v.chans ≡ w.chans)) (channel_bug cfg rt w)
  pub trace_tag : rt.trace_tag ≡ some (λ tag. emit (trace tag))

-- The seven callbacks that tpa_runtime.c gives to a channel are all there. From a state where no run
-- queue is locked each of those that channel.c goes on from returns, touches no channel and leaves
-- no run queue locked; the caller of `channel_bug` does not return, and the runtime has failed then
-- with no channel changed; the callback of traces writes its tag out.
pub channel_rt-KeepsPromises : (cfg : Config) (me : ℕ) → KeepsPromises cfg (channel_rt cfg me)
unfolding channel_rt
channel_rt-KeepsPromises cfg me = record {
  laws = channel_rt-RuntimeLaws cfg me;
  bug = λ w. (fail-failed cfg me w, fail-chans cfg me w);
  trace_tag = refl;
}
