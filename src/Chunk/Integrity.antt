-- ===== src/Chunk/Integrity.antt =====
-- What the checksum of a header detects.
use lzmalloc.Base.{
  ◌⊎◌, inl, inr, ℕ, ◌/◌, ◌%◌, ◌^◌, ◌<◌, ◌≡◌, arith, bit_xor, bit_and, ap, ap₂, ◌∙◌, sym,
}
use lzmalloc.Bits.{bit_and_mask}
use lzmalloc.Bits.Xor.{bit_xor-lt, bit_xor_cancel, bit_xor_comm}
use lzmalloc.Chunk.{Header, calc_checksum}
use lzmalloc.Word.{word_mod, u32_mod, u32}

checksum_form :
    (c : Header)
    → c.owning_tlh < word_mod
    → calc_checksum c ≡ bit_xor (bit_xor c.node_id (c.owning_tlh % 2 ^ 32)) (c.owning_tlh / 2 ^ 32)
unfolding calc_checksum
checksum_form c h =
    let low : u32 (bit_and c.owning_tlh 0xFFFF_FFFF) ≡ c.owning_tlh % 2 ^ 32 =
      ap u32 (bit_and_mask 32 c.owning_tlh) ∙ omega arith in
    let high : u32 (c.owning_tlh / 2 ^ 32) ≡ c.owning_tlh / 2 ^ 32 = omega arith in rw (low, high)

last : (k m a b : ℕ) → m < 2 ^ k → a < 2 ^ k → b < 2 ^ k → bit_xor m a ≡ bit_xor m b → a ≡ b
last k m a b hm ha hb e =
    bit_xor_cancel k a b m ha hb hm (bit_xor_comm k a m ha hm ∙ e ∙ bit_xor_comm k m b hm hb)

one_part :
    (c d : Header)
    → c.node_id < u32_mod
    → d.node_id < u32_mod
    → c.owning_tlh < word_mod
    → d.owning_tlh < word_mod
    → calc_checksum c ≡ calc_checksum d
    → (c.owning_tlh ≡ d.owning_tlh → c.node_id ≡ d.node_id)
      × (c.node_id ≡ d.node_id
          → c.owning_tlh % 2 ^ 32 ≡ d.owning_tlh % 2 ^ 32
          → c.owning_tlh ≡ d.owning_tlh)
      × (c.node_id ≡ d.node_id
          → c.owning_tlh / 2 ^ 32 ≡ d.owning_tlh / 2 ^ 32
          → c.owning_tlh ≡ d.owning_tlh)
one_part c d hc hd oc od e = (
  λ owner. bit_xor_cancel 32 c.node_id d.node_id cl hc hd cl-lt (
      bit_xor_cancel 32 (bit_xor c.node_id cl) (bit_xor d.node_id cl) ch
        (bit_xor-lt 32 c.node_id cl hc cl-lt) (bit_xor-lt 32 d.node_id cl hd cl-lt) ch-lt
        (mixed
          ∙ ap₂ (λ l h. bit_xor (bit_xor d.node_id l) h) (ap (λ t. t % 2 ^ 32) (sym owner))
              (ap (λ t. t / 2 ^ 32) (sym owner)))),
  λ node low.
      let high : ch ≡ dh =
        last 32 (bit_xor c.node_id cl) ch dh (bit_xor-lt 32 c.node_id cl hc cl-lt) ch-lt dh-lt
          (mixed ∙ ap₂ (λ n l. bit_xor (bit_xor n l) dh) (sym node) (sym low)) in
      omega (arith, low, high),
  λ node high.
      let low : cl ≡ dl = last 32 c.node_id cl dl hc cl-lt dl-lt (
        bit_xor_cancel 32 (bit_xor c.node_id cl) (bit_xor c.node_id dl) ch
          (bit_xor-lt 32 c.node_id cl hc cl-lt) (bit_xor-lt 32 c.node_id dl hc dl-lt) ch-lt
          (mixed ∙ ap₂ (λ n h. bit_xor (bit_xor n dl) h) (sym node) (sym high))) in
      omega (arith, low, high),
)
  where
    cl : ℕ
    cl = c.owning_tlh % 2 ^ 32

    dl : ℕ
    dl = d.owning_tlh % 2 ^ 32

    ch : ℕ
    ch = c.owning_tlh / 2 ^ 32

    dh : ℕ
    dh = d.owning_tlh / 2 ^ 32

    cl-lt : cl < 2 ^ 32
    cl-lt = omega arith

    dl-lt : dl < 2 ^ 32
    dl-lt = omega arith

    ch-lt : ch < 2 ^ 32
    ch-lt = omega arith

    dh-lt : dh < 2 ^ 32
    dh-lt = omega arith

    mixed : bit_xor (bit_xor c.node_id cl) ch ≡ bit_xor (bit_xor d.node_id dl) dh
    mixed = sym (checksum_form c oc) ∙ e ∙ checksum_form d od

-- A checksum detects a change of one of the three parts that it mixes: headers with the same owner,
-- or with the same node and owners that agree in the low or in the high 32 bits, have equal
-- checksums only if both node and owner are the same.
pub calc_checksum_detects :
    (c d : Header)
    → c.node_id < u32_mod
    → d.node_id < u32_mod
    → c.owning_tlh < word_mod
    → d.owning_tlh < word_mod
    → (c.owning_tlh ≡ d.owning_tlh)
      ⊎ ((c.node_id ≡ d.node_id) × (c.owning_tlh % 2 ^ 32 ≡ d.owning_tlh % 2 ^ 32))
      ⊎ ((c.node_id ≡ d.node_id) × (c.owning_tlh / 2 ^ 32 ≡ d.owning_tlh / 2 ^ 32))
    → calc_checksum c ≡ calc_checksum d
    → (c.node_id ≡ d.node_id) × (c.owning_tlh ≡ d.owning_tlh)
calc_checksum_detects c d hc hd oc od same e =
    let (node, low, high) = one_part c d hc hd oc od e in
    elim same [
      | inl owner ↦ (node owner, owner)
      | inr (inl (n, l)) ↦ (n, low n l)
      | inr (inr (n, h)) ↦ (n, high n h)
    ]
