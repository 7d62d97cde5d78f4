-- ===== src/Bus/Bytes.antt =====
-- Little-endian bytes put together are the number that they were taken from.
use rvem.Common.{ℕ, ◌+◌, ◌*◌, ◌/◌, ◌%◌, ◌^◌, ◌≡◌, arith, bit_or}
use rvem.Common.Bits.{bit_or_fields}
use rvem.Common.Word.{u8, u32, u64, ◌<<<◌, ◌>>>◌}

pub join2 : (v : ℕ) → bit_or (u8 (v >>> 8) <<< 8) (u8 v) ≡ v % 2 ^ 16
join2 v = rw (bit_or_fields 8 (u8 (v >>> 8)) (u8 v) (omega arith)) (omega arith)

pub join4 :
    (v : ℕ)
    → bit_or
        (bit_or
          (bit_or (u32 (u8 (v >>> 24) <<< 24)) (u32 (u8 (v >>> 16) <<< 16)))
          (u32 (u8 (v >>> 8) <<< 8)))
        (u8 v)
      ≡ v % 2 ^ 32
join4 v =
    rw
      (
        shift3,
        shift2,
        shift1,
        bit_or_fields 24 (u8 (v >>> 24)) (u8 (v >>> 16) * 2 ^ 16) (omega arith),
        top16,
        bit_or_fields 16 (v / 2 ^ 16 % 2 ^ 16) (u8 (v >>> 8) * 2 ^ 8) (omega arith),
        top24,
        bit_or_fields 8 (v / 2 ^ 8 % 2 ^ 24) (u8 v) (omega arith),
      )
      (omega arith)
  where
    shift3 : u32 (u8 (v >>> 24) <<< 24) ≡ u8 (v >>> 24) * 2 ^ 24
    shift3 = omega arith

    shift2 : u32 (u8 (v >>> 16) <<< 16) ≡ u8 (v >>> 16) * 2 ^ 16
    shift2 = omega arith

    shift1 : u32 (u8 (v >>> 8) <<< 8) ≡ u8 (v >>> 8) * 2 ^ 8
    shift1 = omega arith

    top16 : u8 (v >>> 24) * 2 ^ 24 + u8 (v >>> 16) * 2 ^ 16 ≡ v / 2 ^ 16 % 2 ^ 16 * 2 ^ 16
    top16 = omega arith

    top24 : v / 2 ^ 16 % 2 ^ 16 * 2 ^ 16 + u8 (v >>> 8) * 2 ^ 8 ≡ v / 2 ^ 8 % 2 ^ 24 * 2 ^ 8
    top24 = omega arith

pub join8 :
    (v : ℕ)
    → bit_or
        (bit_or
          (bit_or
            (bit_or
              (bit_or
                (bit_or
                  (bit_or (u64 (u8 (v >>> 56) <<< 56)) (u64 (u8 (v >>> 48) <<< 48)))
                  (u64 (u8 (v >>> 40) <<< 40)))
                (u64 (u8 (v >>> 32) <<< 32)))
              (u64 (u8 (v >>> 24) <<< 24)))
            (u64 (u8 (v >>> 16) <<< 16)))
          (u64 (u8 (v >>> 8) <<< 8)))
        (u8 v)
      ≡ v % 2 ^ 64
join8 v =
    rw
      (
        shift56,
        shift48,
        shift40,
        shift32,
        shift24,
        shift16,
        shift8,
        bit_or_fields 56 (u8 (v >>> 56)) (u8 (v >>> 48) * 2 ^ 48) (omega arith),
        top48,
        bit_or_fields 48 (v / 2 ^ 48 % 2 ^ 16) (u8 (v >>> 40) * 2 ^ 40) (omega arith),
        top40,
        bit_or_fields 40 (v / 2 ^ 40 % 2 ^ 24) (u8 (v >>> 32) * 2 ^ 32) (omega arith),
        top32,
        bit_or_fields 32 (v / 2 ^ 32 % 2 ^ 32) (u8 (v >>> 24) * 2 ^ 24) (omega arith),
        top24,
        bit_or_fields 24 (v / 2 ^ 24 % 2 ^ 40) (u8 (v >>> 16) * 2 ^ 16) (omega arith),
        top16,
        bit_or_fields 16 (v / 2 ^ 16 % 2 ^ 48) (u8 (v >>> 8) * 2 ^ 8) (omega arith),
        top8,
        bit_or_fields 8 (v / 2 ^ 8 % 2 ^ 56) (u8 v) (omega arith),
      )
      (omega arith)
  where
    shift56 : u64 (u8 (v >>> 56) <<< 56) ≡ u8 (v >>> 56) * 2 ^ 56
    shift56 = omega arith

    shift48 : u64 (u8 (v >>> 48) <<< 48) ≡ u8 (v >>> 48) * 2 ^ 48
    shift48 = omega arith

    shift40 : u64 (u8 (v >>> 40) <<< 40) ≡ u8 (v >>> 40) * 2 ^ 40
    shift40 = omega arith

    shift32 : u64 (u8 (v >>> 32) <<< 32) ≡ u8 (v >>> 32) * 2 ^ 32
    shift32 = omega arith

    shift24 : u64 (u8 (v >>> 24) <<< 24) ≡ u8 (v >>> 24) * 2 ^ 24
    shift24 = omega arith

    shift16 : u64 (u8 (v >>> 16) <<< 16) ≡ u8 (v >>> 16) * 2 ^ 16
    shift16 = omega arith

    shift8 : u64 (u8 (v >>> 8) <<< 8) ≡ u8 (v >>> 8) * 2 ^ 8
    shift8 = omega arith

    top48 : u8 (v >>> 56) * 2 ^ 56 + u8 (v >>> 48) * 2 ^ 48 ≡ v / 2 ^ 48 % 2 ^ 16 * 2 ^ 48
    top48 = omega arith

    top40 : v / 2 ^ 48 % 2 ^ 16 * 2 ^ 48 + u8 (v >>> 40) * 2 ^ 40 ≡ v / 2 ^ 40 % 2 ^ 24 * 2 ^ 40
    top40 = omega arith

    top32 : v / 2 ^ 40 % 2 ^ 24 * 2 ^ 40 + u8 (v >>> 32) * 2 ^ 32 ≡ v / 2 ^ 32 % 2 ^ 32 * 2 ^ 32
    top32 = omega arith

    top24 : v / 2 ^ 32 % 2 ^ 32 * 2 ^ 32 + u8 (v >>> 24) * 2 ^ 24 ≡ v / 2 ^ 24 % 2 ^ 40 * 2 ^ 24
    top24 = omega arith

    top16 : v / 2 ^ 24 % 2 ^ 40 * 2 ^ 24 + u8 (v >>> 16) * 2 ^ 16 ≡ v / 2 ^ 16 % 2 ^ 48 * 2 ^ 16
    top16 = omega arith

    top8 : v / 2 ^ 16 % 2 ^ 48 * 2 ^ 16 + u8 (v >>> 8) * 2 ^ 8 ≡ v / 2 ^ 8 % 2 ^ 56 * 2 ^ 8
    top8 = omega arith
