-- ===== src/LogicalGroups/PortMap/Volumes.antt =====
-- Which volume `volumeForChannel` of src/LogicalGroupConfig.cc gives a channel.
use speakerman.Prelude.{
  ℕ, zero, suc, ◌+◌, ◌-◌, ◌≤◌, ◌<◌, ◌≡◌, refl, sym, ap, ◌∙◌, false, List, [], ◌∷◌, ◌++◌, ltb, arith,
  length, length-append, take, get_or, replicate, lt→ltb, length-replicate,
}
use native.Mathlib.Decide.{dec_lt}
use speakerman.Double.{Double}
use speakerman.LogicalGroup.{get_port_count}
use speakerman.LogicalGroups.{Groups, get_group_count}
use speakerman.LogicalGroups.PortMap.{
  count_channels, get_total_channels, volume_from, volume_for_channel,
}

not_less : (a b : ℕ) → b ≤ a → ltb a b ≡ false
not_less a b h = ground arith

-- The volume of each channel: that of its group, once for each port of the group.
abbrev pub channel_volumes : Groups → List Double
channel_volumes [] = []
channel_volumes (config ∷ group) =
    replicate (get_port_count config.ports) config.volume ++ channel_volumes group

get_or-append_right {ℓ} :
    {A : Type ℓ} (n i : ℕ) (v d : A) (ys : List A)
    → get_or (replicate n v ++ ys) (n + i) d ≡ get_or ys i d
get_or-append_right zero i v d ys = let e : zero + i ≡ i = omega arith in ap (λ k. get_or ys k d) e
get_or-append_right (suc n) i v d ys =
    let e : suc n + i ≡ suc (n + i) = omega arith in
    ap (λ k. get_or (v ∷ (replicate n v ++ ys)) k d) e ∙ get_or-append_right n i v d ys

get_or-append_left {ℓ} :
    {A : Type ℓ} (n i : ℕ) (v d : A) (ys : List A) → i < n → get_or (replicate n v ++ ys) i d ≡ v
get_or-append_left zero i v d ys h = absurd (omega arith)
get_or-append_left (suc n) zero v d ys h = refl
get_or-append_left (suc n) (suc i) v d ys h = get_or-append_left n i v d ys (omega arith)

length-channels :
    (n : ℕ) (v : Double) (vs : List Double) → length (replicate n v ++ vs) ≡ n + length vs
length-channels n v vs = omega (arith, length-append (replicate n v) vs, length-replicate n v)

volume_from-before :
    (left channel start : ℕ) (volume : Double) (group : Groups)
    → channel < start
    → volume_from left channel start volume group ≡ volume
unfolding volume_from
volume_from-before zero channel start volume group h = refl
volume_from-before (suc left) channel start volume [] h = refl
volume_from-before (suc left) channel start volume (config ∷ group) h =
    rw (lt→ltb channel start h) refl

volume_from-eq :
    (left start i channel : ℕ) (volume d : Double) (group : Groups)
    → channel ≡ start + i
    → i < length (channel_volumes (take left group))
    → volume_from left channel start volume group ≡ get_or (channel_volumes (take left group)) i d
unfolding volume_from
volume_from-eq zero start i channel volume d group e h = absurd (omega arith)
volume_from-eq (suc left) start i channel volume d [] e h = absurd (omega arith)
volume_from-eq (suc left) start i channel volume d (config ∷ group) e h =
    let n = get_port_count config.ports in
    let v = config.volume in
    let vs = channel_volumes (take left group) in
    let more = length-channels n v vs in
    let here : ltb channel start ≡ false = not_less channel start (omega arith) in
    rw here (elim (dec_lt i n) [
      | yes inside ↦
          volume_from-before left channel (start + n) v group (omega arith)
          ∙ sym (get_or-append_left n i v d vs inside)
      | no outside ↦
          let split : i ≡ n + (i - n) = omega arith in
          volume_from-eq left (start + n) (i - n) channel v d group (omega arith) (omega arith)
          ∙ sym (
              ap (λ k. get_or (replicate n v ++ vs) k d) split
              ∙ get_or-append_right n (i - n) v d vs)
    ])

count_channels-eq :
    (left : ℕ) (group : Groups)
    → count_channels left group ≡ length (channel_volumes (take left group))
unfolding count_channels
count_channels-eq zero group = refl
count_channels-eq (suc left) [] = refl
count_channels-eq (suc left) (config ∷ group) = omega (
  arith,
  count_channels-eq left group,
  length-channels (get_port_count config.ports) config.volume (channel_volumes (take left group)),
)

-- Each channel below the total number of channels has the volume of its group, where the channels
-- are counted through the ports of the groups.
pub volume_for_channel-eq :
    (channel : ℕ) (group : Groups)
    → channel < get_total_channels group
    → volume_for_channel channel group
      ≡ get_or (channel_volumes (take (get_group_count group) group)) channel 0
unfolding volume_for_channel get_total_channels
volume_for_channel-eq channel group h =
    volume_from-eq (get_group_count group) 0 channel channel 0 0 group (omega arith)
      (omega (arith, count_channels-eq (get_group_count group) group))
