-- ===== src/Rc/Bounds.antt =====
-- Every sequence of calls of class RC keeps its registers at 32 bits
-- (client/hardware/rc/rc_interface.py).
use Prim.Native.Nat.{bit_or}
use multi_daq.Prelude.{
  Bool, true, false, Option, none, some, ℕ, ◌<◌, ◌≡◌, refl, List, [], ◌∷◌, arith, if◌then◌else◌,
  both, get_or, map_option, is_empty, ◌&&◌,
}
use multi_daq.Prelude.Dict.{Dict, find}
use multi_daq.Prelude.Bits.{and_not}
use multi_daq.Prelude.Int.{ℤ, pos, negsuc}
use multi_daq.Channels.Definitions.{ChannelsArg, channels_definition}
use multi_daq.Message.Protocol.{Json, null, boolean, integer, real, text, array, object, no_members}
use multi_daq.Message.Handler.{dict_of}
use multi_daq.Rc.Registers.{
  Rc, Fits, max_regs, check_reg_boundary, check_channels_boundary, write, and_write, also_write,
  read, write_register, num_channels, after,
}
use multi_daq.Rc.ChannelCommands.{
  reset_channel, boot_channel, start_channel, reset_from, boot_from, start_from, mask_of, has_mask,
}
use multi_daq.Rc.ListCommands.{
  MaskLoop, invalid, mask, build_mask, ListCommand, write_mask, masked, on_channels, list_command,
  reset_registers, select_one, feb_reset_after_flash, feb_select_for_address_change,
}
use multi_daq.Rc.Acquisition.{
  Progress, note_write, write_value, write_values, normalize, set_parts, set_reg15, apply_15,
  write_15, set_acq_registers, with_registers, acq_register_write_order, begin, no_values,
  reg15_setting, merged_15,
}

-- A call of a method.
pub data Call : Type 0 where
  set_register : ℤ → ℤ → Call
  reset_one boot_one start_one : ℕ → Call
  on_list : ListCommand → ChannelsArg → Call
  after_flash : Call
  select_feb : ChannelsArg → Call
  configure : Json → Call

unfoldable pub step : Rc → Call → Rc
step s (set_register a v) = (write_register a v s).1
step s (reset_one ch) = (reset_channel ch s).1
step s (boot_one ch) = after s (boot_channel ch s)
step s (start_one ch) = after s (start_channel ch s)
step s (on_list k channels) = after s (list_command k channels s)
step s after_flash = (feb_reset_after_flash s).1
step s (select_feb channels) = after s (feb_select_for_address_change channels s)
step s (configure config) = (set_acq_registers config s).1

unfoldable pub run : Rc → List Call → Rc
unfolding step
run s [] = s
run s (c ∷ cs) = run (step s c) cs

-- What every write keeps, every method keeps.
module _ (P : Rc → Type 0) (kept : (addr value : ℤ) (s : Rc) → P s → P (write addr value s).1) where
  and_kept : (w : Bool × Rc) (addr value : ℤ) → P w.1 → P (and_write w addr value).1
  and_kept (true, s) addr value h = kept addr value s h
  and_kept (false, s) addr value h = h

  if_kept : {A : Type 0} (b : Bool) (x y : A × Rc) → P x.1 → P y.1 → P (if b then x else y).1
  if_kept true x y v w = v
  if_kept false x y v w = w

  if_after :
      {A : Type 0} (s : Rc) (b : Bool) (x y : Option (A × Rc))
      → P (after s x)
      → P (after s y)
      → P (after s (if b then x else y))
  if_after s true x y v w = v
  if_after s false x y v w = w

  reset_from-kept : (ch : ℕ) (o : Option (ℕ × ℕ)) (s : Rc) → P s → P (reset_from ch o s).1
  reset_from-kept ch none s h = h
  reset_from-kept ch (some (reg0, reg1)) s h =
      if_kept (has_mask (mask_of ch) reg0 && has_mask (mask_of ch) reg1) _ _
        (and_kept _ _ _ (kept _ _ s h)) h

  boot_from-kept :
      (ch : ℕ) (o : Option (ℕ × (ℕ × ℕ))) (s : Rc) → P s → P (after s (boot_from ch o s))
  boot_from-kept ch none s h = h
  boot_from-kept ch (some (reg0, (reg1, reg17))) s h =
      if_after s
        (has_mask (mask_of ch) reg0 && has_mask (mask_of ch) reg1 && has_mask (mask_of ch) reg17) _
        _ h
        (and_kept
          (and_write (write (pos 17) (pos (bit_or reg17 (mask_of ch))) s) (pos 0)
            (pos (bit_or reg0 (mask_of ch))))
          _ _ (and_kept (write (pos 17) (pos (bit_or reg17 (mask_of ch))) s) _ _ (kept _ _ s h)))

  start_from-kept : (ch : ℕ) (o : Option (ℕ × ℕ)) (s : Rc) → P s → P (after s (start_from ch o s))
  start_from-kept ch none s h = h
  start_from-kept ch (some (reg0, reg1)) s h =
      if_after s (has_mask (mask_of ch) reg0 && has_mask (mask_of ch) reg1) _ _ h
        (and_kept _ _ _ (kept _ _ s h))

  three_kept :
      (a b c : ℕ) (v : ℤ) (s : Rc)
      → P s
      → P (also_write (also_write (write (pos a) v s) (pos b) v) (pos c) v).1
  three_kept a b c v s h =
      kept (pos c) v (write (pos b) v (write (pos a) v s).1).1
        (kept (pos b) v (write (pos a) v s).1 (kept (pos a) v s h))

  write_mask-kept :
      (k : ListCommand) (chs : List ℕ) (m : ℕ) (s : Rc) → P s → P (write_mask k chs m s).1
  unfolding write_mask
  write_mask-kept ListCommand.reset chs m s h = by_reading (both (read (pos 0) s) (read (pos 1) s))
    where
      by_reading : (o : Option (ℕ × ℕ)) → P (reset_registers chs m o s).1
      by_reading none = h
      by_reading (some (reg0, reg1)) =
          kept (pos 1) (pos (and_not reg1 m)) (write (pos 0) (pos (and_not reg0 m)) s).1
            (kept (pos 0) (pos (and_not reg0 m)) s h)
  write_mask-kept ListCommand.boot chs m s h = three_kept 17 0 1 (pos m) s h
  write_mask-kept ListCommand.start chs m s h = three_kept 1 0 39 (pos m) s h

  on_channels-kept : (k : ListCommand) (chs : List ℕ) (s : Rc) → P s → P (on_channels k chs s).1
  on_channels-kept k chs s h = if_kept (is_empty chs) _ _ h (by_mask (build_mask 0 chs))
    where
      by_mask : (l : MaskLoop) → P (masked k chs l s).1
      by_mask (invalid ch) = h
      by_mask (mask m) = write_mask-kept k chs m s h

  select_one-kept : (chs : List ℕ) (s : Rc) → P s → P (select_one chs s).1
  select_one-kept [] s h = h
  select_one-kept (ch ∷ []) s h = if_kept (check_channels_boundary ch) _ _ (kept _ _ s h) h
  select_one-kept (ch ∷ c ∷ chs) s h = h

  on_definition :
      {A : Type 0} (f : List ℕ → A × Rc) (s : Rc) (o : Option (List ℕ))
      → ((chs : List ℕ) → P (f chs).1)
      → P s
      → P (after s (map_option f o))
  on_definition f s none k h = h
  on_definition f s (some chs) k h = k chs

  note_write-kept : (a : ℕ) (w : Bool × Rc) (p : Progress) → P w.1 → P (note_write a w p).rc
  note_write-kept a (true, s) p h = h
  note_write-kept a (false, s) p h = h

  write_values-kept :
      (values : ℕ → Option ℕ) (order : List ℕ) (p : Progress)
      → P p.rc
      → P (write_values values order p).rc
  unfolding write_values
  write_values-kept values [] p h = h
  write_values-kept values (a ∷ rest) p h =
      write_values-kept values rest (write_value a (values a) p) (by_value (values a))
    where
      by_value : (o : Option ℕ) → P (write_value a o p).rc
      by_value none = h
      by_value (some v) =
          note_write-kept a (write (pos a) (pos v) p.rc) p (kept (pos a) (pos v) p.rc h)

  set_reg15-kept : (o : Option (Dict Json)) (p : Progress) → P p.rc → P (set_reg15 o p).rc
  unfolding set_reg15
  set_reg15-kept none p h = h
  set_reg15-kept (some d) p h = by_setting (reg15_setting d)
    where
      by_reading : (b : ℕ × ℕ) (o : Option ℕ) → P (write_15 b o p).rc
      by_reading (m, v) none = h
      by_reading (m, v) (some previous) =
          note_write-kept 15 (write (pos 15) (pos (merged_15 previous m v)) p.rc) p
            (kept (pos 15) (pos (merged_15 previous m v)) p.rc h)

      by_setting : (o : Option (ℕ × ℕ)) → P (apply_15 o p).rc
      by_setting none = h
      by_setting (some b) = by_reading b (read (pos 15) p.rc)

  set_parts-kept : (d : Dict Json) (o : Option (Dict Json)) (s : Rc) → P s → P (set_parts d o s).rc
  unfolding set_parts
  set_parts-kept d o s h =
      let n = normalize d no_values in
      set_reg15-kept o (write_values n.values acq_register_write_order (begin s n.failed))
        (write_values-kept n.values acq_register_write_order (begin s n.failed) h)

  with_registers-kept : (x y : Json) (s : Rc) → P s → P (with_registers x y s).1
  with_registers-kept (object d) null s h = set_parts-kept (dict_of d) none s h
  with_registers-kept (object d) (object e) s h = set_parts-kept (dict_of d) (some (dict_of e)) s h
  with_registers-kept (object d) (boolean y) s h = h
  with_registers-kept (object d) (integer y) s h = h
  with_registers-kept (object d) (real y) s h = h
  with_registers-kept (object d) (text y) s h = h
  with_registers-kept (object d) (array y) s h = h
  with_registers-kept null y s h = h
  with_registers-kept (boolean x) y s h = h
  with_registers-kept (integer x) y s h = h
  with_registers-kept (real x) y s h = h
  with_registers-kept (text x) y s h = h
  with_registers-kept (array x) y s h = h

  set_acq_registers-kept : (x : Json) (s : Rc) → P s → P (set_acq_registers x s).1
  unfolding set_acq_registers
  set_acq_registers-kept (object d) s h =
      with_registers-kept (get_or (find "registers" (dict_of d)) (object no_members))
        (get_or (find "reg15" (dict_of d)) null) s h
  set_acq_registers-kept _ s h = h

  step-kept : (c : Call) (s : Rc) → P s → P (step s c)
  unfolding step write_register reset_channel boot_channel start_channel list_command
      feb_reset_after_flash feb_select_for_address_change
  step-kept (set_register a v) s h = kept a v s h
  step-kept (reset_one ch) s h =
      if_kept (check_channels_boundary ch) _ _ (reset_from-kept ch _ s h) h
  step-kept (boot_one ch) s h =
      if_after s (check_channels_boundary ch) _ _ (boot_from-kept ch _ s h) h
  step-kept (start_one ch) s h =
      if_after s (check_channels_boundary ch) _ _ (start_from-kept ch _ s h) h
  step-kept (on_list k a) s h =
      on_definition (λ chs. on_channels k chs s) s (channels_definition a num_channels false false)
        (λ chs. on_channels-kept k chs s h) h
  step-kept after_flash s h = three_kept 1 0 17 (pos 0) s h
  step-kept (select_feb a) s h =
      on_definition (λ chs. select_one chs s) s (channels_definition a num_channels false false)
        (λ chs. select_one-kept chs s h) h
  step-kept (configure x) s h = set_acq_registers-kept x s h

  run-kept : (cs : List Call) (s : Rc) → P s → P (run s cs)
  unfolding run
  run-kept [] s h = h
  run-kept (c ∷ cs) s h = run-kept cs (step s c) (step-kept c s h)

-- The registers that the process can reach are written with 32 bits, the others not at all.
record Bounded (s t : Rc) : Type 0 where
  same_mapping : t.mapped ≡ s.mapped
  fits : Fits t
  beyond : (a : ℕ) → max_regs < a → t.regs a ≡ s.regs a

write-Bounded : (s : Rc) (addr value : ℤ) (t : Rc) → Bounded s t → Bounded s (write addr value t).1
unfolding write check_reg_boundary
write-Bounded s (negsuc a) value t w = w
write-Bounded s (pos a) (negsuc v) t w = record {
  same_mapping = ground (arith, w.same_mapping);
  fits = λ r. ground (arith, w.fits r);
  beyond = λ r h. ground (arith, w.beyond r h);
}
write-Bounded s (pos a) (pos v) t w = record {
  same_mapping = ground (arith, w.same_mapping);
  fits = λ r. ground (arith, w.fits r);
  beyond = λ r h. ground (arith, w.beyond r h);
}

-- After any calls on registers of 32 bits, every register holds 32 bits, and those beyond address 50
-- are as before.
pub registers_stay_32_bit :
    (cs : List Call) (s : Rc)
    → Fits s
    → Fits (run s cs) × ((a : ℕ) → max_regs < a → (run s cs).regs a ≡ s.regs a)
registers_stay_32_bit cs s w =
    let b =
      run-kept (Bounded s) (write-Bounded s) cs s
        (record { same_mapping = refl; fits = w; beyond = λ a h. refl }) in
    (b.fits, b.beyond)
