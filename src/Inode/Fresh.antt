-- ===== src/Inode/Fresh.antt =====
-- new_block as _bmap of fs/inode.c calls it: the block is new, clear, and the rest is kept.
-- Block `n` was not in use before, and is now, with nothing in it.
use linux_0_1_1_comment.Prelude.{
  update, update_self, update_ne, subst, ℕ, ◌+◌, ◌-◌, ◌<◌, ◌≡◌, refl, sym, ap, ◌∙◌, ◌≢◌, ◌⊎◌, inl,
  inr, Bool, true, false, arith,
}
use linux_0_1_1_comment.Bitmap.{Super, Outcome, panics, refused, done, new_block}
use linux_0_1_1_comment.Bitmap.Marks.{in_use}
use linux_0_1_1_comment.Bitmap.Zones.{Takes, disk_full, past_end, shared, given, new_block-Takes}
use linux_0_1_1_comment.Inode.{Fs, word_at, allocated, alloc}
use linux_0_1_1_comment.Inode.Grow.{Used, Sound, Grows, Grows-refl, Leaves}

pub record Cleared (fs : Fs) (n : ℕ) (fs' : Fs) : Type 0 where
  pub apart : (c : ℕ) → Used fs c → c ≢ n
  pub now_used : Used fs' n
  pub is_readable : fs'.readable n ≡ true
  pub all_zero : (k : ℕ) → word_at (fs'.b_data n) k ≡ 0

-- What new_block gives the file system: a cleared block that was not in use, or 0.
pub record Allocated (fs : Fs) (n : ℕ) (fs' : Fs) : Type 0 where
  pub sound : Sound fs'
  pub grows : Grows fs fs'
  pub contents : (c : ℕ) → Used fs c → fs'.b_data c ≡ fs.b_data c
  pub fits : n < 65536
  pub fresh : (n ≡ 0) ⊎ Cleared fs n fs'

-- Marking a free bit `z` of the map keeps what is in use.
module _ (fs : Fs) (t : Super) (z : ℕ) (sound : Sound fs) (free : in_use fs.super.zmap z ≡ false)
    (others : (n : ℕ) → n ≢ z → in_use t.zmap n ≡ in_use fs.super.zmap n)
    (disk : (t.firstdatazone ≡ fs.super.firstdatazone)
      × (t.nzones ≡ fs.super.nzones)
      × (t.users ≡ fs.super.users))
    (now_used : in_use t.zmap z ≡ true) where
  used_apart : (n : ℕ) → in_use fs.super.zmap n ≡ true → n ≢ z
  used_apart n u e = cc (u, ap (in_use fs.super.zmap) e, free)

  marked-Used : (c : ℕ) → Used fs c → in_use t.zmap (c - (t.firstdatazone - 1)) ≡ true
  marked-Used c u =
      let n = c - (fs.super.firstdatazone - 1) in rw (disk.0) (others n (used_apart n u) ∙ u)

  idle_before :
      (c : ℕ)
      → in_use t.zmap (c - (t.firstdatazone - 1)) ≡ false
      → in_use fs.super.zmap (c - (fs.super.firstdatazone - 1)) ≡ false
  idle_before c f =
      let n = c - (fs.super.firstdatazone - 1) in
      let f' : in_use t.zmap n ≡ false =
        subst (λ k. in_use t.zmap (c - (k - 1)) ≡ false) (disk.0) f in
      sym (others n (λ e. cc (now_used, f', ap (in_use t.zmap) e))) ∙ f'

  marked-Sound :
      (d : ℕ → ℕ → ℕ) (r : ℕ → Bool) → Sound (record { super = t; b_data = d; readable = r })
  marked-Sound d r = record {
    positive = rw (disk.0) sound.positive;
    reserved = others 0 (used_apart 0 sound.reserved) ∙ sound.reserved;
    small = rw (disk.1) sound.small;
    idle = λ c f. rw (disk.2) (sound.idle c (idle_before c f));
  }

allocated-Allocated :
    (fs : Fs) (o : Outcome) → Sound fs → Takes fs.super o → Leaves (Allocated fs) (allocated fs o)
allocated-Allocated fs panics sound (shared z free busy) = absurd (
    busy (
      sound.idle (z + fs.super.firstdatazone - 1) (
        let e : z + fs.super.firstdatazone - 1 - (fs.super.firstdatazone - 1) ≡ z =
          omega (arith, sound.positive) in
        rw e free)))
allocated-Allocated fs (refused t) sound (disk_full full) = record {
  sound = sound;
  grows = Grows-refl fs;
  contents = λ c u. refl;
  fits = omega arith;
  fresh = inl refl;
}
allocated-Allocated fs (refused t) sound (past_end z free past now_used others disk) = record {
  sound = marked-Sound fs t z sound free others disk now_used fs.b_data fs.readable;
  grows = record {
    still_used = marked-Used fs t z sound free others disk now_used;
    entries = λ c k u ne. refl;
    new_entries = λ c k u z. inl z;
    same_readable = λ c u. refl;
  };
  contents = λ c u. refl;
  fits = omega arith;
  fresh = inl refl;
}
allocated-Allocated fs (done b t) sound (given g) =
    let z = b - (fs.super.firstdatazone - 1) in
    let apart : (c : ℕ) → Used fs c → c ≢ b = λ c u e.
      used_apart fs t z sound g.was_free g.others g.same_disk g.now_used
        (c - (fs.super.firstdatazone - 1)) u (ap (λ c. c - (fs.super.firstdatazone - 1)) e) in
    let kept : (c : ℕ) → Used fs c → update fs.b_data b (λ j. 0) c ≡ fs.b_data c =
      λ c u. update_ne fs.b_data b c (λ j. 0) (apart c u) in
    record {
      sound = marked-Sound fs t z sound g.was_free g.others g.same_disk g.now_used _ _;
      grows = record {
        still_used = marked-Used fs t z sound g.was_free g.others g.same_disk g.now_used;
        entries = λ c k u ne. ap (λ d. word_at d k) (kept c u);
        new_entries = λ c k u z. inl (ap (λ d. word_at d k) (kept c u) ∙ z);
        same_readable = λ c u. update_ne fs.readable b c true (apart c u);
      };
      contents = kept;
      fits = omega (arith, g.high, sound.small);
      fresh = inr (record {
        apart = apart;
        now_used = rw (g.same_disk.0) g.now_used;
        is_readable = update_self fs.readable b true;
        all_zero = λ k. ap (λ d. word_at d k) (update_self fs.b_data b (λ j. 0)) ∙ omega arith;
      });
    }

pub alloc-Allocated : (fs : Fs) → Sound fs → Leaves (Allocated fs) (alloc fs)
unfolding alloc
alloc-Allocated fs sound =
    allocated-Allocated fs (new_block fs.super) sound
      (new_block-Takes fs.super sound.positive sound.reserved)
