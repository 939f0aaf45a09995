-- ===== src/Bitmap/Zones.antt =====
-- new_block and free_block of fs/bitmap.c.
use linux_0_1_1_comment.Prelude.{
  leb, ge→ltb, Bool-cases, ne→=/=, ≡→=/=, lt→leb, update, update_self, ℕ, ◌+◌, ◌-◌, ◌*◌, ◌/◌, ◌%◌,
  ◌≤◌, ◌<◌, ◌≡◌, refl, sym, ap, ◌∙◌, ◌≢◌, inl, inr, true, false, Option, none, some, arith,
  ℕ_discrete,
}
use linux_0_1_1_comment.Bitmap.{
  Bits, Super, search_maps, write_bit, Outcome, panics, refused, done, clear_zone_bit, clear_zone,
  free_block, take_zone, take_found, new_block,
}
use linux_0_1_1_comment.Bitmap.Marks.{
  in_use, in_use-write_bit, in_use-write_bit_other, write_bit-present, in_use-write_bit_twice,
  in_use-full,
}
use linux_0_1_1_comment.Bitmap.Search.{all_used, Searched, found, search_maps-Searched}

free_block-inside :
    (block : ℕ) (s : Super)
    → s.firstdatazone ≤ block
    → block < s.nzones
    → s.users block ≡ 0
    → free_block block s ≡ clear_zone (block - (s.firstdatazone - 1)) s
unfolding free_block
free_block-inside block s low high idle =
    rw (ge→ltb block s.firstdatazone low, lt→leb block s.nzones high, ≡→=/= (s.users block) 0 idle)
      refl

clear_zone-set :
    (i j : ℕ) (bits : Bits) (s : Super)
    → j < 8192
    → s.zmap i ≡ some bits
    → bits j ≡ true
    → clear_zone (j + i * 8192) s
      ≡ done 0
          (record s { zmap = write_bit i j false s.zmap; zmap_dirt = update s.zmap_dirt i true })
unfolding clear_zone clear_zone_bit
clear_zone-set i j bits s small here set =
    let at : (j + i * 8192) / 8192 ≡ i = omega arith in
    let rem : (j + i * 8192) % 8192 ≡ j = omega arith in rw (at, here, at, rem, set) refl

-- The block given is in the data zone, was free, is now in use, and nothing else changed.
pub record Given (s : Super) (block : ℕ) (t : Super) : Type 0 where
  pub low : s.firstdatazone ≤ block
  pub high : block < s.nzones
  pub unused : s.users block ≡ 0
  pub was_free : in_use s.zmap (block - (s.firstdatazone - 1)) ≡ false
  pub now_used : in_use t.zmap (block - (s.firstdatazone - 1)) ≡ true
  pub others : (n : ℕ) → n ≢ block - (s.firstdatazone - 1) → in_use t.zmap n ≡ in_use s.zmap n
  pub same_disk : (t.firstdatazone ≡ s.firstdatazone) × (t.nzones ≡ s.nzones) × (t.users ≡ s.users)
  pub restored :
      (u : Super) × (free_block block t ≡ done 0 u) × ((n : ℕ) → in_use u.zmap n ≡ in_use s.zmap n)

-- What new_block does.
pub data Takes (s : Super) : Outcome → Type 0 where
  disk_full : ((n : ℕ) → n < 65536 → in_use s.zmap n ≡ true) → Takes s (refused s)
  past_end :
      (z : ℕ) {t : Super}
      → in_use s.zmap z ≡ false
      → s.nzones ≤ z + s.firstdatazone - 1
      → in_use t.zmap z ≡ true
      → ((n : ℕ) → n ≢ z → in_use t.zmap n ≡ in_use s.zmap n)
      → (t.firstdatazone ≡ s.firstdatazone) × (t.nzones ≡ s.nzones) × (t.users ≡ s.users)
      → Takes s (refused t)
  shared :
      (z : ℕ) → in_use s.zmap z ≡ false → s.users (z + s.firstdatazone - 1) ≢ 0 → Takes s panics
  given : {block : ℕ} {t : Super} → Given s block t → Takes s (done block t)

module _ (s : Super) (positive : 1 ≤ s.firstdatazone) (reserved : in_use s.zmap 0 ≡ true) where
  module _ (i j : ℕ) (bits : Bits) (here : s.zmap i ≡ some bits) (small : j < 8192)
      (free : bits j ≡ false) where
    found_free : in_use s.zmap (j + i * 8192) ≡ false
    found_free =
        let at : (j + i * 8192) / 8192 ≡ i = omega arith in
        let rem : (j + i * 8192) % 8192 ≡ j = omega arith in rw (at, rem, here) free

    found_positive : 1 ≤ j + i * 8192
    found_positive = elim (ℕ_discrete (j + i * 8192) 0) [
      | yes z ↦ absurd (cc (found_free, ap (in_use s.zmap) z, reserved))
      | no ne ↦ omega arith
    ]

    take_zone-Takes : Takes s (take_zone i j s)
    unfolding take_zone
    take_zone-Takes =
        let zone = j + i * 8192 in
        let marked = in_use-write_bit i j true s.zmap bits small here in
        elim (Bool-cases (leb s.nzones (j + i * 8192 + s.firstdatazone - 1))) [
          | inl past ↦ rw past (
              past_end zone found_free (ground arith) marked
                (in_use-write_bit_other i j true s.zmap bits small here) (refl, refl, refl))
          | inr inside ↦
              rw inside (elim (ℕ_discrete (s.users (j + i * 8192 + s.firstdatazone - 1)) 0) [
                | no busy ↦
                    rw (ne→=/= (s.users (j + i * 8192 + s.firstdatazone - 1)) 0 busy)
                      (shared zone found_free busy)
                | yes idle ↦ rw (≡→=/= (s.users (j + i * 8192 + s.firstdatazone - 1)) 0 idle) (
                    given (
                      let pos = found_positive in
                      let t = record s {
                        zmap = write_bit i j true s.zmap;
                        zmap_dirt = update s.zmap_dirt i true;
                      } in
                      let present : write_bit i j true s.zmap i ≡ some (update bits j true) =
                        write_bit-present i j true s.zmap bits here in
                      let back : j + i * 8192 + s.firstdatazone - 1 - (s.firstdatazone - 1)
                          ≡ j + i * 8192 =
                        omega arith in
                      record {
                        low = omega arith;
                        high = ground arith;
                        unused = idle;
                        was_free = rw back found_free;
                        now_used = rw back marked;
                        same_disk = (refl, refl, refl);
                        restored = (
                          record t {
                            zmap = write_bit i j false t.zmap;
                            zmap_dirt = update t.zmap_dirt i true;
                          },
                          free_block-inside (j + i * 8192 + s.firstdatazone - 1) t (omega arith)
                                (ground arith) idle
                              ∙ ap (λ z. clear_zone z t) back
                              ∙ clear_zone-set i j (update bits j true) t small present
                                  (update_self bits j true),
                          in_use-write_bit_twice i j s.zmap bits small here free,
                        );
                        others = λ n ne.
                            in_use-write_bit_other i j true s.zmap bits small here n
                              (λ e. ne (e ∙ sym back));
                      }))
              ])
        ]

  new_block_step : (r : Option (ℕ × ℕ)) → Searched s.zmap 0 8 r → Takes s (take_found r s)
  unfolding take_found
  new_block_step none (all_used full) = disk_full (in_use-full s.zmap full)
  new_block_step (some (i, j)) (found lt here small free) = take_zone-Takes i j _ here small free

  -- new_block, where data blocks start at 1 or later and bit 0 of the zone map is set: it refuses
  -- when every bit is set; it gives a block of the data zone that was free and had no users, marks
  -- it, and changes no other bit, so that free_block of that block then succeeds and gives the map
  -- back; it refuses, having marked it, a free bit past the end of the disk, and panics on a free
  -- block that has users.
  pub new_block-Takes : Takes s (new_block s)
  unfolding new_block
  new_block-Takes = new_block_step (search_maps 8 0 s.zmap) (search_maps-Searched 8 0 s.zmap)
