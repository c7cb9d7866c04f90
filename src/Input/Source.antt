-- ===== src/Input/Source.antt =====
-- The sources that `evaluate` puts aside and takes up again.
use post.Prelude.{update, some, ◌≡◌, refl}
use post.Input.{Input, forth_pushsource, forth_popsource, toin}

-- Where the source that `u` reads is the one that `i` reads, from the same character on.
pub record SameSource (i u : Input) : Type 0 where
  pub same_parsebuf : u.parsebuf ≡ i.parsebuf
  pub same_parsebuflen : u.parsebuflen ≡ i.parsebuflen
  pub same_toin : u.vm.m toin ≡ i.vm.m toin
  pub same_sourceid : u.sourceid ≡ i.sourceid

-- `popsource` gives back the source that `pushsource` put aside, whatever was read in between, if that
-- left the sources put aside as they were.
pub popsource-pushsource :
    (i j : Input)
    → j.sourceid ≡ (forth_pushsource i).sourceid
    → (u : Input) × (forth_popsource j ≡ some u) × SameSource i u
unfolding forth_pushsource forth_popsource
popsource-pushsource i j h = (
  record j {
    parsebuflen = i.parsebuflen;
    parsebuf = i.parsebuf;
    vm = record (j.vm) { m = update j.vm.m toin (i.vm.m toin) };
    sourceid = i.sourceid;
  },
  rw (forth_popsource, h) refl,
  record { same_parsebuf = refl; same_parsebuflen = refl; same_toin = refl; same_sourceid = refl },
)
