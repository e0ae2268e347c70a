-- ===== src/Linux/Named.antt =====
-- linux/DtaDevLinuxSata.cpp and linux/DtaDevLinuxNvme.cpp: the labels of a drive in its identification.
-- The other end is a kernel with a drive that writes them by its standard.
use sedutil.Prelude.{
  bytes_eq, ◌&&◌, not, ltb, ◌-◌, ℕ, zero, suc, ◌+◌, ◌≡◌, refl, ap, subst, ◌∙◌, arith, true, false,
  List, [], ◌∷◌, ◌++◌, length, replicate, ◌==◌, if◌then◌else◌,
}
use sedutil.Structures.{OpalDiskInfo, device_type_ata, device_type_sas, device_type_nvme}
use sedutil.Device.{Request, filled, min_buffer_length}
use sedutil.Linux.{Bus, sata, sas, nvme, SgAnswer, status, Kernel}
use sedutil.Linux.Identify.{
  flip, no_data, part, safecopy, read_inquiry, read_identify, read_controller, identify_sata,
  identify_nvme,
}

pub record Labels : Type 0 where
  pub serial : List ℕ
  pub firmware : List ℕ
  pub model : List ℕ

abbrev pub Sizes : Labels → ℕ → ℕ → ℕ → Type 0
Sizes l s f m = (length l.serial ≡ s) × (length l.firmware ≡ f) × (length l.model ≡ m)

-- The sizes by the standards; SAS has a vendor in place of the number.
abbrev pub Fits : Bus → Labels → Type 0
Fits sata l = Sizes l 20 8 40
Fits nvme l = Sizes l 20 8 40
Fits sas l = Sizes l 8 4 16

flip-flip : (l : List ℕ) → flip (flip l) ≡ l
unfolding flip
flip-flip (a ∷ b ∷ l) = ap (λ t. a ∷ b ∷ t) (flip-flip l)
flip-flip (a ∷ []) = refl
flip-flip [] = refl

length-flip : (l : List ℕ) → length (flip l) ≡ length l
unfolding flip
length-flip (a ∷ b ∷ l) = ap (λ n. suc (suc n)) (length-flip l)
length-flip (a ∷ []) = refl
length-flip [] = refl

-- The fields of a buffer that a page is read into.
part-past :
    (a l : List ℕ) (j k m n : ℕ)
    → length a ≡ j
    → part (j + k) n (filled (j + m) (a ++ l)) ≡ part k n (filled m l)
unfolding filled
part-past a l j k m n h =
    subst (λ i. part (i + k) n (filled (i + m) (a ++ l)) ≡ part k n (filled m l)) h (go a)
  where
    go :
        (a : List ℕ)
        → part (length a + k) n (filled (length a + m) (a ++ l)) ≡ part k n (filled m l)
    go [] = let (e, f) : (0 + k ≡ k) × (0 + m ≡ m) = (omega arith, omega arith) in rw (e, f) refl
    go (x ∷ a) =
        let e : suc (length a) + k ≡ suc (length a + k) = omega arith in
        let f : suc (length a) + m ≡ suc (length a + m) = omega arith in rw (e, f) (go a)

part-front : (a l : List ℕ) (j m : ℕ) → length a ≡ j → part 0 j (filled (j + m) (a ++ l)) ≡ a
unfolding filled
part-front a l j m h = subst (λ i. part 0 i (filled (i + m) (a ++ l)) ≡ a) h (go a)
  where
    go : (a : List ℕ) → part 0 (length a) (filled (length a + m) (a ++ l)) ≡ a
    go [] = refl
    go (x ∷ a) =
        let f : suc (length a) + m ≡ suc (length a + m) = omega arith in
        rw f (ap (λ t. x ∷ t) (go a))

filled-zeros : (a : List ℕ) (j m : ℕ) → length a ≡ j → filled (j + m) a ≡ a ++ replicate m 0
unfolding filled
filled-zeros a j m h = subst (λ i. filled (i + m) a ≡ a ++ replicate m 0) h (go a)
  where
    none_left : (m : ℕ) → filled m [] ≡ replicate m 0
    none_left zero = refl
    none_left (suc m) = ap (λ t. 0 ∷ t) (none_left m)

    go : (a : List ℕ) → filled (length a + m) a ≡ a ++ replicate m 0
    go [] = let f : 0 + m ≡ m = omega arith in rw f (none_left m)
    go (x ∷ a) =
        let f : suc (length a) + m ≡ suc (length a + m) = omega arith in
        rw f (ap (λ t. x ∷ t) (go a))

-- The words of an ATA identification, whose texts have the bytes of each word the other way round.
abbrev pub ata_page : Labels → List ℕ
ata_page l =
    (0x40 ∷ replicate 19 0)
    ++ (flip l.serial ++ (replicate 6 0 ++ (flip l.firmware ++ (flip l.model ++ []))))

abbrev controller_page : Labels → List ℕ
controller_page l = replicate 4 0 ++ (l.serial ++ (l.model ++ (l.firmware ++ [])))

abbrev inquiry_page : Labels → List ℕ
inquiry_page l = replicate 8 0 ++ (l.serial ++ (l.model ++ (l.firmware ++ [])))

abbrev answers : List ℕ → ℕ → SgAnswer
answers page resid = record {
  failed = false;
  sense = [];
  masked_status = 0;
  resid = resid;
  buffer = page;
}

abbrev fails : SgAnswer
fails = record { failed = true; sense = []; masked_status = 0; resid = 0; buffer = [] }

-- IDENTIFY DEVICE in ATA PASS-THROUGH (12), for a block that comes in.
abbrev pub identify_command : List ℕ
identify_command = 0xa1 ∷ 8 ∷ 0x0e ∷ 0 ∷ 1 ∷ 0 ∷ 0 ∷ 0 ∷ 0 ∷ 0xec ∷ 0 ∷ 0 ∷ []

-- INQUIRY for 36 bytes.
abbrev inquiry_command : List ℕ
inquiry_command = 0x12 ∷ 0 ∷ 0 ∷ 0 ∷ 36 ∷ 0 ∷ []

-- A kernel with a drive that has the labels, and tells them for the one command that asks for them; the
-- data have to come in, into a buffer that is long enough. A SAS drive knows no ATA command.
abbrev pub labelled : Bus → Labels → Kernel
labelled bus l = record {
  sg_io = λ earlier io. elim bus [
    | sata ↦
        if bytes_eq io.cdb identify_command && io.from_device && (io.dxfer_len == 512)
        then answers (ata_page l) 0
        else fails
    | sas ↦
        if bytes_eq io.cdb inquiry_command && io.from_device && not (ltb io.dxfer_len 36)
        then answers (inquiry_page l) (io.dxfer_len - 36)
        else fails
    | nvme ↦ fails
  ];
  nvme_admin = λ earlier cmd.
      if (cmd.opcode == 6) && (cmd.nsid == 0) && (cmd.cdw10 == 1) && (cmd.data_len == 4096)
      then record { result = status 0; buffer = controller_page l }
      else record { result = status 2; buffer = [] };
}

-- The driver that is first made for the drive.
abbrev pub drive_identify : Bus → Kernel → List Request → OpalDiskInfo → OpalDiskInfo × Bus
drive_identify nvme k earlier info = identify_nvme k earlier info
drive_identify _ k earlier info = identify_sata k earlier info

-- What is known then: the labels as the drive has them, which SAS follows by zeros.
abbrev pub labels_on : Bus → Labels → OpalDiskInfo → OpalDiskInfo
labels_on sata l info = record info {
  dev_type = device_type_ata;
  serial_num = l.serial;
  firmware_rev = l.firmware;
  model_num = l.model;
}
labels_on nvme l info = record info {
  dev_type = device_type_nvme;
  serial_num = l.serial;
  firmware_rev = l.firmware;
  model_num = l.model;
}
labels_on sas l info = record info {
  dev_type = device_type_sas;
  serial_num = l.serial ++ replicate 12 0;
  firmware_rev = l.firmware ++ replicate 4 0;
  model_num = l.model ++ replicate 24 0;
}

ata_page_first : (l : Labels) → no_data (filled min_buffer_length (ata_page l)) ≡ false
unfolding filled no_data
ata_page_first l = refl

module _ (l : Labels) (info : OpalDiskInfo) (earlier : List Request) where
  identify_sata-labelled :
      Fits sata l → identify_sata (labelled sata l) earlier info ≡ (labels_on sata l info, sata)
  unfolding identify_sata read_identify
  identify_sata-labelled (s, f, m) =
      let pre : List ℕ = 0x40 ∷ replicate 19 0 in
      let rest_m = flip l.model ++ [] in
      let rest_f = flip l.firmware ++ rest_m in
      let rest_s = replicate 6 0 ++ rest_f in
      let fs = length-flip l.serial ∙ s in
      let ff = length-flip l.firmware ∙ f in
      let fm = length-flip l.model ∙ m in
      let serial : part 20 20 (filled min_buffer_length (ata_page l)) ≡ flip l.serial =
        part-past pre (flip l.serial ++ rest_s) 20 0 2028 20 refl
        ∙ part-front (flip l.serial) rest_s 20 2008 fs in
      let to_firmware : (k n : ℕ)
          → part (20 + (20 + (6 + k))) n (filled min_buffer_length (ata_page l))
            ≡ part k n (filled 2002 rest_f) =
        λ k n.
          part-past pre (flip l.serial ++ rest_s) 20 (20 + (6 + k)) 2028 n refl
          ∙ part-past (flip l.serial) rest_s 20 (6 + k) 2008 n fs
          ∙ part-past (replicate 6 0) rest_f 6 k 2002 n refl in
      let firmware : part 46 8 (filled min_buffer_length (ata_page l)) ≡ flip l.firmware =
        to_firmware 0 8 ∙ part-front (flip l.firmware) rest_m 8 1994 ff in
      let model : part 54 40 (filled min_buffer_length (ata_page l)) ≡ flip l.model =
        to_firmware 8 40
        ∙ part-past (flip l.firmware) rest_m 8 0 1994 40 ff
        ∙ part-front (flip l.model) [] 40 1954 fm in
      rw
        (
          ata_page_first l,
          serial,
          firmware,
          model,
          flip-flip l.serial,
          flip-flip l.firmware,
          flip-flip l.model,
        )
        refl

  -- Three fields one after the other.
  fields :
      (pre : List ℕ) (o i j k n : ℕ)
      → length pre ≡ o
      → length l.serial ≡ i
      → length l.model ≡ j
      → length l.firmware ≡ k
      → let page =
          filled (o + (i + (j + (k + n)))) (pre ++ (l.serial ++ (l.model ++ (l.firmware ++ [])))) in
        (part (o + 0) i page ≡ l.serial)
        × (part (o + (i + 0)) j page ≡ l.model)
        × (part (o + (i + (j + 0))) k page ≡ l.firmware)
  fields pre o i j k n p s m f =
      let third = l.firmware ++ [] in
      let second = l.model ++ third in
      let first = l.serial ++ second in
      (
        part-past pre first o 0 (i + (j + (k + n))) i p
            ∙ part-front l.serial second i (j + (k + n)) s,
        part-past pre first o (i + 0) (i + (j + (k + n))) j p
            ∙ part-past l.serial second i 0 (j + (k + n)) j s
            ∙ part-front l.model third j (k + n) m,
        part-past pre first o (i + (j + 0)) (i + (j + (k + n))) k p
            ∙ part-past l.serial second i (j + 0) (j + (k + n)) k s
            ∙ part-past l.model third j 0 (k + n) k m
            ∙ part-front l.firmware [] k n f,
      )

  -- A drive of each kind that writes its labels by its standard, and tells them for the command of this
  -- standard, is known by just these labels, and by the driver that it needs. Over SAS the label in the
  -- place of the serial number is the vendor, and zeros follow the labels.
  pub drive_identify-labelled :
      (bus : Bus)
      → Fits bus l
      → drive_identify bus (labelled bus l) earlier info ≡ (labels_on bus l info, bus)
  unfolding identify_nvme read_controller identify_sata read_identify read_inquiry safecopy
  drive_identify-labelled sata h = identify_sata-labelled h
  drive_identify-labelled nvme (s, f, m) =
      let (serial, model, firmware) = fields (replicate 4 0) 4 20 40 8 4024 refl s m f in
      rw (serial, model, firmware) refl
  drive_identify-labelled sas (s, f, m) =
      let (serial, model, firmware) = fields (replicate 8 0) 8 8 16 4 2012 refl s m f in
      rw
        (
          serial,
          model,
          firmware,
          filled-zeros l.serial 8 12 s,
          filled-zeros l.firmware 4 4 f,
          filled-zeros l.model 16 24 m,
        )
        refl
