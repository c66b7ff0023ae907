-- ===== src/Lib.antt =====
-- Verification of the UhyokOS kernel, a small x86-64 operating system in C++.
--
-- Sources and modules (paths from the repository's root):
--   kernel/queue.hpp               Queue: `ArrayQueue`, a ring buffer, against a bounded list
--   kernel/message.hpp             Message: the messages between tasks
--   kernel/error.hpp               Errors: the codes, and a value with a code
--   kernel/task.hpp, task.cpp      Task: tasks, their messages, the scheduler. Store holds the
--                                  tasks by id, Invariant says what a well-formed manager is,
--                                  History runs sequences of requests from the constructor on
--   kernel/timer.hpp, timer.cpp    Timer: the timers by timeout, `Tick`, and the timer interrupt,
--                                  which sends messages to tasks and asks for a switch
--   kernel/memory_manager.hpp, memory_manager.cpp, memory_map.hpp
--                                  Memory: the bitmap of frames, and Memory.Startup the walk over
--                                  the memory map and the kernel heap. Bits has the words
--   kernel/graphics.hpp            Graphics: colours, vectors, rectangles
--   kernel/layer.hpp, layer.cpp    Layer: the layers, their stack, what is redrawn, the active one
--   kernel/mouse.hpp, mouse.cpp    Mouse: the pointer, which moves and drags layers
--   kernel/console.hpp, console.cpp
--                                  Console: the text buffer and its cursor
--   kernel/pci.hpp, pci.cpp        Pci: the configuration registers; Scan the search for devices;
--                                  Msi the set-up of interrupts
--   kernel/usb/arraymap.hpp        Usb.ArrayMap: a map in an array
--   kernel/usb/xhci/ring.hpp, ring.cpp, trb.hpp
--                                  Usb.Ring: the transfer rings and the event ring
--   kernel/usb/xhci/xhci.cpp, devmgr.cpp
--                                  Xhci: the phases of the ports and the handlers of events
--   kernel/usb/descriptor.hpp, endpoint.hpp, setupdata.hpp
--                                  Usb.Descriptor: descriptors in memory, endpoints, requests
--   kernel/usb/device.hpp, device.cpp
--                                  Usb.Device: the loops over the descriptors, and in Handlers the
--                                  phases of initialization and what completed transfers do
--   kernel/usb/classdriver/hid.hpp, hid.cpp, keyboard.cpp, mouse.cpp
--                                  Usb.Hid: the drivers of keyboards and mice. Their requests to the
--                                  device stand in Usb.Device.Handlers
--   kernel/usb/xhci/device.hpp, device.cpp, trb.hpp
--                                  Xhci.Device: the transfers, which fill the interface `Transfers`
--                                  that Usb.Device is written over, and the events
--   kernel/keyboard.cpp            Keyboard: the characters of the keys
--   kernel/terminal.hpp, terminal.cpp
--                                  Terminal: the line, the cursor, the history, the commands
--   kernel/fat.hpp, fat.cpp        Fat: clusters, names, and the lines that the terminal's `ls` prints
--   kernel/acpi.hpp, acpi.cpp      Acpi: the tables, and the wait on the timer
-- Base has the shared vocabulary: tests, lists, integers, order.
--
-- State is passed and returned; an operation that the source leaves undefined, such as the front
-- of an empty queue or a null pointer, returns `none`, and the theorems show that it is not met;
-- among the calls that draw it is `null_access`, and what follows that means nothing.
-- Numbers are natural numbers with the wrap-around of their type written out where it can happen;
-- coordinates are integers that are taken not to overflow. A pointer to a task is its id, a pointer
-- to a layer its place in the vector of layers. The scheduler, the timers and the layers call each
-- other as in the source: the timer interrupt runs `Tick`, which sends through `SendMessage`, which
-- wakes the task through `Wakeup`, and then `SwitchTask`.
--
-- Loops are on fuel where they are not structural, with a theorem that the fuel is enough: `Tick`
-- takes one round for each timer, `Allocate` one for each frame of the range, `ScanBus` one level
-- for each place of the array of devices, since a bridge takes a place before the bus behind it is
-- searched, and `ConfigureMSI` one round for each capability of a chain that ends. The loops over
-- descriptors take a round for each descriptor of the buffer, and come to a result `Run`, which tells
-- what is undefined in the source from what is out of fuel. The wait on the timer takes a round for
-- each reading of the port.
--
-- Parameters: what the configuration space of PCI reads at each address; what the ports and the
-- device contexts of the controller say; the result of an allocation for a ring; the memory that a
-- device writes its descriptors and reports to, and where the objects of drivers are placed; the
-- lines that `lspci` formats; the readings of the timer's port.
--
-- Not modelled: assembly, descriptor and page tables, memory-mapped registers, pixels and fonts,
-- the log, the UEFI loader; and, not yet, the USB memory pool, windows and the frame buffer.
pub mod Base
pub mod Bits
pub mod Console
pub mod Terminal
pub mod Fat
pub mod Keyboard
pub mod Acpi
pub mod Errors
pub mod Pci
pub mod Graphics
pub mod Layer
pub mod Queue
pub mod Usb
pub mod Xhci
pub mod Memory
pub mod Message
pub mod Mouse
pub mod Task
pub mod Timer
