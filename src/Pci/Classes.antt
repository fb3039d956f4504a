-- ===== src/Pci/Classes.antt =====
-- The names of the classes of devices in src/common/pci.c.
use Prim.Native.String.{String}
use kokos.Shared.{ℕ, List, [], ◌∷◌, ◌==◌, if◌then◌else◌, get_or}

-- The cases from 0x00 to 0x14 of the `switch`.
unfoldable class_names : List String
class_names =
    "Unclassified" ∷ "Mass Storage Controller" ∷ "Network Controller" ∷ "Display Controller"
    ∷ "Multimedia Controller" ∷ "Memory Controller" ∷ "Bridge" ∷ "Simple Communication Controller"
    ∷ "Base System Peripheral" ∷ "Input Device Controller" ∷ "Docking Station" ∷ "Processor"
    ∷ "Serial Bus Controller" ∷ "Wireless Controller" ∷ "Intelligent Controller"
    ∷ "Satellite Communication Controller" ∷ "Encryption Controller"
    ∷ "Signal Processing Controller" ∷ "Processing Accelerator" ∷ "Non-Essential Instrumentation"
    ∷ "0x3F (Reserved)" ∷ []

unfoldable pub pci_class_string : ℕ → String
unfolding class_names
pci_class_string class_code =
    if class_code == 0x40
    then "Co-Processor"
    else if class_code == 0x41
    then "0xFE (Reserved)"
    else get_or class_names class_code "Unassigned Class"

unfoldable pub pci_subclass_string : ℕ → ℕ → String
unfolding pci_class_string
pci_subclass_string class_code subclass_code = pci_class_string class_code
